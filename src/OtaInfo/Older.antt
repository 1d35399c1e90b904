-- ===== src/OtaInfo/Older.antt =====
-- Which copy of the update record is taken for the older one (common/common.c).
use stc_isp_demo.Prelude.{ℕ, ◌+◌, ◌/◌, ◌≤◌, ◌<◌, ◌≡◌, ◌≢◌, refl, sym, ap, ◌∙◌, arith}
use stc_isp_demo.Device.Memory.{window_ext}
use stc_isp_demo.Device.Nor.{Nor}
use stc_isp_demo.OtaInfo.{
  OtaInfo, OtaId, master, backup, flip, addr_of, u32_at, ota_info_size, blank_seq, older_of,
  findout_which_ota_info_is_older, read_info, write_info,
}
use stc_isp_demo.OtaInfo.Codec.{addr_of_low, IsOtaInfo, read_info-write_info, write_info_outside}

apart :
    (id : OtaId) (a : ℕ)
    → addr_of (flip id) ≤ a
    → a < addr_of (flip id) + 4
    → a / 4096 ≢ addr_of id / 4096
apart master a h k = omega arith
apart backup a h k = omega arith

-- With a larger number than the other copy, and not blank, a copy is the newer one.
older_of_newer :
    (id : OtaId) (seq : OtaId → ℕ)
    → seq (flip id) < seq id
    → seq id < blank_seq
    → older_of (seq master) (seq backup) ≡ flip id
unfolding older_of
older_of_newer master seq h k = ground arith
older_of_newer backup seq h k = ground arith

older_of_le :
    (seq : OtaId → ℕ)
    → seq master ≢ blank_seq
    → seq (older_of (seq master) (seq backup)) ≤ seq (flip (older_of (seq master) (seq backup)))
unfolding older_of
older_of_le seq h = ground arith

older_of_blank : (m b : ℕ) → m ≤ blank_seq → b ≡ blank_seq → older_of m b ≡ master
unfolding older_of
older_of_blank m b h e = ground arith

flip-flip : (id : OtaId) → flip (flip id) ≡ id
flip-flip master = refl
flip-flip backup = refl

module _ (nor : Nor) where
  -- The sequence number of a copy, as its first four bytes are read.
  abbrev pub seq_of : OtaId → nor.State → ℕ
  seq_of id s = u32_at (nor.read (addr_of id) 4 s) 0

  findout_by_seq :
      (s : nor.State)
      → findout_which_ota_info_is_older nor s ≡ older_of (seq_of master s) (seq_of backup s)
  unfolding findout_which_ota_info_is_older
  findout_by_seq s = refl

  seq_of-read_info : (id : OtaId) (s : nor.State) → seq_of id s ≡ (read_info nor id s).seq
  unfolding read_info
  seq_of-read_info id s =
      ap (λ l. u32_at l 0) (nor.read_lem (addr_of id) 4 s (addr_of_low id 4 (omega arith)))
      ∙ sym (
          ap (λ l. u32_at l 0)
            (nor.read_lem (addr_of id) ota_info_size s (addr_of_low id 68 (omega arith))))

  seq_of-write_info_self :
      (id : OtaId) (i : OtaInfo) (s : nor.State)
      → IsOtaInfo i
      → seq_of id (write_info nor id i s) ≡ i.seq
  seq_of-write_info_self id i s v =
      seq_of-read_info id (write_info nor id i s)
      ∙ ap {A = OtaInfo} (λ r. r.seq) (read_info-write_info nor id i s v)

  seq_of-write_info_other :
      (id : OtaId) (i : OtaInfo) (s : nor.State)
      → seq_of (flip id) (write_info nor id i s) ≡ seq_of (flip id) s
  seq_of-write_info_other id i s =
      ap (λ l. u32_at l 0)
        (nor.read_lem (addr_of (flip id)) 4 (write_info nor id i s)
            (addr_of_low (flip id) 4 (omega arith))
          ∙ window_ext _ _ (addr_of (flip id)) 4
              (λ a h k. write_info_outside nor id i s a (apart id a h k))
          ∙ sym (nor.read_lem (addr_of (flip id)) 4 s (addr_of_low (flip id) 4 (omega arith))))

  -- A record with a valid value in each field is written over one copy. If it has a larger
  -- sequence number than the other copy and is not the blank number, then from that moment the
  -- other copy is taken for the older one, and the record that is loaded is the new one.
  pub update_wins :
      (id : OtaId) (i : OtaInfo) (s : nor.State)
      → IsOtaInfo i
      → seq_of (flip id) s < i.seq
      → i.seq < blank_seq
      → (findout_which_ota_info_is_older nor (write_info nor id i s) ≡ flip id)
        × (read_info nor
              (flip (findout_which_ota_info_is_older nor (write_info nor id i s)))
              (write_info nor id i s)
            ≡ i)
  update_wins id i s v h k =
      let s' = write_info nor id i s in
      let self = seq_of-write_info_self id i s v in
      let other = seq_of-write_info_other id i s in
      let turned : findout_which_ota_info_is_older nor s' ≡ flip id =
        findout_by_seq s' ∙ older_of_newer id (λ j. seq_of j s') (rw (self, other) h) (rw self k) in
      (turned, rw (turned, flip-flip) (read_info-write_info nor id i s v))

  -- If the master copy is not blank, the copy that is taken for the older one has no larger
  -- sequence number than the other.
  pub findout-seq_le :
      (s : nor.State)
      → seq_of master s ≢ blank_seq
      → seq_of (findout_which_ota_info_is_older nor s) s
        ≤ seq_of (flip (findout_which_ota_info_is_older nor s)) s
  findout-seq_le s h = rw findout_by_seq (older_of_le (λ j. seq_of j s) h)

  -- A blank backup copy is never taken for the older one: whatever the master copy holds, it is
  -- the blank backup that is loaded.
  pub blank_backup_loaded :
      (s : nor.State)
      → seq_of master s ≤ blank_seq
      → seq_of backup s ≡ blank_seq
      → findout_which_ota_info_is_older nor s ≡ master
  blank_backup_loaded s h e =
      findout_by_seq s ∙ older_of_blank (seq_of master s) (seq_of backup s) h e
