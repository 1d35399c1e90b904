-- ===== src/Update.antt =====
-- A whole update: the client of app/src/ota.c and the server of programmer/programmer/programmer.cpp
-- in turn, with a port between them that loses nothing.
pub mod Block
pub mod Stored
pub mod Next
pub mod Completes
pub mod Lossy
pub mod Whole
use stc_isp_demo.Prelude.{
  ℕ, zero, suc, ◌+◌, ◌-◌, ◌%◌, ◌≤◌, ◌<◌, ◌≡◌, false, List, [], ◌∷◌, Option, none, some, length,
  take,
}
use stc_isp_demo.Device.Crc.{Crc32, crc_of}
use stc_isp_demo.Device.Memory.{AllBytes}
use stc_isp_demo.Device.Nor.{Nor}
use stc_isp_demo.OtaClient.{
  Client, Request, check_ota, get_app_data, downloading, target, block_size, ota_on_app_data,
}
use stc_isp_demo.OtaClient.Download.{Downloads, stored}
use stc_isp_demo.Host.Server.{Server, OtaApp, find, answer_data}

abbrev pub last_of : List Request → Option Request
last_of [] = none
last_of (r ∷ []) = some r
last_of (r ∷ s ∷ rs) = last_of (s ∷ rs)

-- The server has the application, whose record describes its bytes.
pub record Serves (crc : Crc32) (srv : Server) (app : OtaApp) : Type 0 where
  pub open_to_all : srv.suspended ≡ false
  pub found : find app.info.version srv.ota_apps ≡ some app
  pub size : app.info.size ≡ length app.bin
  pub sum : app.info.crc ≡ crc_of crc app.bin
  pub bytes : AllBytes app.bin

module _ {nor : Nor} (crc : Crc32) (srv : Server) where
  -- The server answers the last request for a block, and the client takes the answer.
  abbrev pub answered : Option Request → Client nor → Client nor
  answered none c = c
  answered (some (check_ota a)) c = c
  answered (some (get_app_data v o n)) c = elim (answer_data crc srv v o n) [
    | none ↦ c
    | some res ↦ ota_on_app_data crc res c
  ]

  unfoldable pub exchange : Client nor → Client nor
  exchange c = answered (last_of c.sent) c

  unfoldable pub exchanges : ℕ → Client nor → Client nor
  unfolding exchange
  exchanges zero c = c
  exchanges (suc n) c = exchanges n (exchange c)

module _ {nor : Nor} (crc : Crc32) where
  -- A download of the application that has stored whole blocks of it and asks for the next one.
  pub record Online (app : OtaApp) (c : Client nor) : Type 0 where
    pub state : c.ota_state ≡ downloading
    pub downloads : Downloads crc c
    pub image : target c ≡ app.info
    pub so_far : stored crc c ≡ take c.ota_info.dlctx.received app.bin
    pub blank :
        (i : ℕ)
        → c.flash_addr + c.ota_info.dlctx.received ≤ i
        → i < c.flash_addr + app.info.size
        → nor.byte_at c.flash i ≡ 255
    pub whole_blocks : c.ota_info.dlctx.received % 128 ≡ 0
    pub asks :
        last_of c.sent
        ≡ some (
            get_app_data app.info.version c.ota_info.dlctx.received
              (block_size (app.info.size - c.ota_info.dlctx.received)))
