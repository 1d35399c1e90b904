-- ===== src/Update/Block.antt =====
-- A block of the server of programmer/programmer/programmer.cpp, as the client of app/src/ota.c
-- takes it.
use stc_isp_demo.Prelude.{
  ℕ, ◌+◌, ◌-◌, ◌≤◌, ◌≡◌, ◌∙◌, refl, sym, ap, arith, true, List, [], ◌++◌, some, length, take, drop,
  length-take, length-drop, take_of_eq, copy, copy-append, zeros, zeros-add, length-zeros, leb,
}
use stc_isp_demo.Device.Crc.{Crc32, crc_of}
use stc_isp_demo.Layout.{app_max_size}
use stc_isp_demo.OtaClient.{AppData, block, u32, ota_ok}
use stc_isp_demo.Host.Server.{Server, OtaApp, piece, answer_data}
use stc_isp_demo.Update.{Serves}

pub length-piece : (bin : List ℕ) (o n : ℕ) → o + n ≤ length bin → length (take n (drop o bin)) ≡ n
length-piece bin o n h = length-take n (drop o bin) (omega (arith, length-drop o bin))

-- The answer to a request for `n` bytes from `o` on.
pub record IsPiece (crc : Crc32) (bin : List ℕ) (o n : ℕ) (res : AppData) : Type 0 where
  pub result : res.result ≡ ota_ok
  pub offset : res.offset ≡ o
  pub size : res.size ≡ n
  pub bytes : block res ≡ take n (drop o bin)
  pub sum : res.crc ≡ crc_of crc (take n (drop o bin))

module _ (crc : Crc32) where
  piece-IsPiece :
      (app : OtaApp) (o n : ℕ)
      → o + n ≤ length app.bin
      → n ≤ 128
      → (res : AppData) × (piece crc app o n ≡ some res) × IsPiece crc app.bin o n res
  unfolding piece
  piece-IsPiece app o n h k =
      let bin = take n (drop o app.bin) in
      let len = length-piece app.bin o n h in
      let room : zeros 242 ≡ zeros n ++ zeros (242 - n) =
        ap zeros {x = 242} {y = n + (242 - n)} (omega arith) ∙ zeros-add n (242 - n) in
      let copied : copy 0 bin (zeros 242) ≡ some (bin ++ zeros (242 - n)) =
        ap (copy 0 bin) room
        ∙ copy-append bin [] (zeros n) (zeros (242 - n)) 0 refl (length-zeros n ∙ sym len) in
      (
        record {
          result = ota_ok;
          offset = o;
          size = n;
          crc = crc_of crc bin;
          dat = bin ++ zeros (242 - n);
        },
        rw copied refl,
        record {
          result = refl;
          offset = refl;
          size = refl;
          bytes = take_of_eq n bin (zeros (242 - n)) _ (sym len) refl;
          sum = refl;
        },
      )

  -- A server that has the application answers a request inside it with that piece.
  pub answer_data-IsPiece :
      (srv : Server) (app : OtaApp) (o n : ℕ)
      → Serves crc srv app
      → o + n ≤ length app.bin
      → n ≤ 128
      → length app.bin ≤ app_max_size
      → (res : AppData) × (answer_data crc srv app.info.version o n ≡ some res)
        × IsPiece crc app.bin o n res
  unfolding answer_data
  answer_data-IsPiece srv app o n s h k m =
      let (res, e, p) = piece-IsPiece app o n h k in
      let inside : leb (u32 (o + n)) app.info.size ≡ true = rw s.size (ground arith) in
      (res, rw (s.open_to_all, s.found, inside) e, p)
