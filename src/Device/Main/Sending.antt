-- ===== src/Device/Main/Sending.antt =====
-- send_bank of firmware/main.c: the stream that answers a read of a bank.
use p2000t_cartridge_studio.RomSizes.{romsize, blocksize, banksize}
use p2000t_cartridge_studio.Bytes.{Bytes, mid}
use p2000t_cartridge_studio.Bytes.Regions.{mid-append_mid}
use p2000t_cartridge_studio.Crc.{crc16_from, crc16_xmodem}
use p2000t_cartridge_studio.Device.Protocol.{protocol_crc_update}
use p2000t_cartridge_studio.Device.Main.{Board, send_blocks, finish_bank, send_bank}
use p2000t_cartridge_studio.Device.Agreement.{with_crc}
use p2000t_cartridge_studio.Base.{
  ℕ, zero, suc, ◌+◌, ◌*◌, ◌/◌, ◌%◌, ◌^◌, ◌≤◌, ◌<◌, ◌≡◌, refl, sym, ap, ◌∙◌, Bool, true, not, Option,
  none, some, [], ◌∷◌, ◌++◌, append-nil, append_assoc, arith, ◌==◌, if◌then◌else◌, if_both, length,
}

-- A board whose flash reads as its contents and whose serial line takes what is sent.
pub record Line {B : Type 0} (T : Board B) (flash sent : B → Bytes) : Type 0 where
  pub reads :
      (block : ℕ) (b : B)
      → block < 1024
      → (let r = T.sst_read_block block b in
          (r.0 ≡ 0)
          × (r.1 ≡ mid (block * blocksize) blocksize (flash b))
          × (flash (r.2) ≡ flash b)
          × (sent (r.2) ≡ sent b))
  pub sends :
      (content : Bytes) (b : B)
      → (let r = T.send_data content b in
          (r.0 ≡ true) × (flash (r.1) ≡ flash b) × (sent (r.1) ≡ sent b ++ content))

crc16_from-append :
    (xs ys : Bytes) (crc : ℕ) → crc16_from (crc16_from crc xs) ys ≡ crc16_from crc (xs ++ ys)
unfolding crc16_from
crc16_from-append [] ys crc = refl
crc16_from-append (x ∷ xs) ys crc = crc16_from-append xs ys _

-- A block and the blocks behind it.
joined :
    (block left : ℕ) (xs : Bytes)
    → (block + suc left) * blocksize ≤ length xs
    → mid (block * blocksize) blocksize xs ++ mid ((block + 1) * blocksize) (left * blocksize) xs
      ≡ mid (block * blocksize) (suc left * blocksize) xs
joined block left xs h =
    let next : (block + 1) * blocksize ≡ block * blocksize + blocksize = omega arith in
    let whole : blocksize + left * blocksize ≡ suc left * blocksize = omega arith in
    ap (λ (k : ℕ). mid (block * blocksize) blocksize xs ++ mid k (left * blocksize) xs) next
    ∙ mid-append_mid (block * blocksize) blocksize (left * blocksize) xs (omega arith)
    ∙ ap (λ (k : ℕ). mid (block * blocksize) k xs) whole

module _ {B : Type 0} (T : Board B) (flash sent : B → Bytes) (line : Line T flash sent) where
  -- What the loop has done when it ends without a failure.
  pub record Sent (b : B) (crc : ℕ) (content : Bytes) (r : Option ℕ × B) : Type 0 where
    pub checksum : r.0 ≡ some (crc16_from crc content)
    pub kept : flash (r.1) ≡ flash b
    pub stream : sent (r.1) ≡ sent b ++ content

  passed :
      (P : Option ℕ × B → Type 0) (value : ℕ) (done : Bool) (x y z : Option ℕ × B)
      → value ≡ 0
      → done ≡ true
      → P z
      → P (if not (value == 0) then x else if not done then y else z)
  passed P value done x y z e k h =
      if_both P (not (value == 0)) x _ (λ wrong. absurd (ground (arith, e, wrong)))
        (λ _. if_both P (not done) y z (λ wrong. absurd (ground (arith, k, wrong))) (λ _. h))

  send_blocks-Sent :
      (left block crc : ℕ) (b : B)
      → block + left ≤ 1024
      → length (flash b) ≡ romsize
      → Sent b crc
          (mid (block * blocksize) (left * blocksize) (flash b))
          (send_blocks T left block crc b)
  unfolding send_blocks protocol_crc_update crc16_from mid
  send_blocks-Sent zero block crc b inside size = record {
    checksum = refl;
    kept = refl;
    stream = sym (append-nil (sent b));
  }
  send_blocks-Sent (suc left) block crc b inside size =
      let r = T.sst_read_block block b in
      let (value, content, same_flash, same_sent) = line.reads block b (omega arith) in
      let s = T.send_data (r.1) (r.2) in
      let (done, same_flash', more_sent) = line.sends (r.1) (r.2) in
      let still : flash (s.1) ≡ flash b = same_flash' ∙ same_flash in
      let later =
        send_blocks-Sent left (block + 1) (crc16_from crc (r.1)) (s.1) (omega arith)
          (ap length still ∙ size) in
      let all : r.1 ++ mid ((block + 1) * blocksize) (left * blocksize) (flash (s.1))
          ≡ mid (block * blocksize) (suc left * blocksize) (flash b) =
        ap (λ (x : Bytes). x ++ mid ((block + 1) * blocksize) (left * blocksize) (flash (s.1)))
          content
        ∙ ap
            (λ (f : Bytes).
              mid (block * blocksize) blocksize (flash b)
              ++ mid ((block + 1) * blocksize) (left * blocksize) f)
            still
        ∙ joined block left (flash b) (omega (arith, size)) in
      passed (Sent b crc (mid (block * blocksize) (suc left * blocksize) (flash b))) (r.0) (s.0) _ _
        _ value done
        (record {
          checksum =
              later.checksum
              ∙ ap some (crc16_from-append (r.1) _ crc)
              ∙ ap (λ (c : Bytes). some (crc16_from crc c)) all;
          kept = later.kept ∙ still;
          stream =
              later.stream
              ∙ ap
                  (λ (x : Bytes).
                    x ++ mid ((block + 1) * blocksize) (left * blocksize) (flash (s.1)))
                  (more_sent ∙ ap (λ (x : Bytes). x ++ r.1) same_sent)
              ∙ append_assoc (sent b) (r.1) _
              ∙ ap (λ (c : Bytes). sent b ++ c) all;
        })

  finished :
      (content : Bytes) (b : B) (r : Option ℕ × B)
      → Sent b 0 content r
      → (let r' = finish_bank T r in
          (r'.0 ≡ true) × (flash (r'.1) ≡ flash b) × (sent (r'.1) ≡ sent b ++ with_crc content))
  unfolding finish_bank crc16_xmodem
  finished content b (none, b') h = absurd (ground (arith, h.checksum))
  finished content b (some crc, b') h =
      let right : crc ≡ crc16_from 0 content =
        ap (λ (o : Option ℕ). elim o [ none ↦ 0 | some x ↦ x ]) h.checksum in
      let (done, same_flash, more_sent) = line.sends (crc / 2 ^ 8 ∷ crc % 256 ∷ []) b' in
      (
        done,
        same_flash ∙ h.kept,
        more_sent
            ∙ ap (λ (x : Bytes). x ++ (crc / 2 ^ 8 ∷ crc % 256 ∷ [])) h.stream
            ∙ append_assoc (sent b) content (crc / 2 ^ 8 ∷ crc % 256 ∷ [])
            ∙ ap (λ (c : ℕ). sent b ++ (content ++ (c / 2 ^ 8 ∷ c % 256 ∷ []))) right,
      )

  -- On a board whose flash of 256 KiB reads as its contents and whose serial line takes what is
  -- sent, send_bank of a bank in range succeeds, sends the 16384 bytes of the bank in order and
  -- then their CRC, and changes nothing in the flash.
  pub send_bank-with_crc :
      (bank : ℕ) (b : B)
      → bank < 16
      → length (flash b) ≡ romsize
      → (let r = send_bank T bank b in
          (r.0 ≡ true)
          × (flash (r.1) ≡ flash b)
          × (sent (r.1) ≡ sent b ++ with_crc (mid (bank * banksize) banksize (flash b))))
  unfolding send_bank
  send_bank-with_crc bank b inside size =
      let h = send_blocks-Sent 64 (bank * 2 ^ 6) 0 b (omega arith) size in
      let start : bank * 2 ^ 6 * blocksize ≡ bank * banksize = omega arith in
      let region = λ (k : ℕ). mid k banksize (flash b) in
      let (done, kept, stream) = finished (region (bank * 2 ^ 6 * blocksize)) b _ h in
      (done, kept, stream ∙ ap (λ (k : ℕ). sent b ++ with_crc (region k)) start)
