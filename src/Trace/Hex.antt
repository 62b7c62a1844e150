-- ===== src/Trace/Hex.antt =====
-- The line of a frame in src/trace/trace.c: which bytes it shows, and that it fits its buffer.
use wireless_tsn_configurato.Base.{
  ℕ, zero, suc, ◌+◌, ◌-◌, ◌*◌, ◌/◌, ◌%◌, ◌≤◌, ◌<◌, ◌≡◌, refl, Option, true, false, List, [], ◌∷◌,
  arith, ltb, if◌then◌else◌, length, take, All,
}
use wireless_tsn_configurato.Base.Text.{CString}
use wireless_tsn_configurato.Common.StrUtil.Copy.{copied_of_lt}
use wireless_tsn_configurato.Trace.{Now, frame, trace_line, hex, frame_line, entry}

-- What a reader makes of a digit, and of a line of digits in pairs.
abbrev pub digit : ℕ → ℕ
digit c = if ltb c b'A' then c - b'0' else c - b'A' + 10

abbrev pub read_bytes : CString → List ℕ
read_bytes (a ∷ b ∷ c ∷ line) = (digit a * 16 + digit b) ∷ read_bytes line
read_bytes _ = []

digit-hex : (n : ℕ) → n < 16 → digit (hex n) ≡ n
unfolding hex
digit-hex n h = ground arith

-- At `k` places left, `k` bytes are shown.
frame_line_at :
    (off k : ℕ) (bytes : List ℕ)
    → off + 3 * k ≡ 252
    → All (λ b. b < 256) bytes
    → (read_bytes (frame_line off bytes) ≡ take k bytes) × (length (frame_line off bytes) ≤ 3 * k)
unfolding frame_line
frame_line_at off zero [] e h = (refl, omega arith)
frame_line_at off (suc k) [] e h = (refl, omega arith)
frame_line_at off zero (b ∷ bytes) e h =
    let full : ltb (off + 4) trace_line ≡ false = ground arith in rw full (refl, omega arith)
frame_line_at off (suc k) (b ∷ bytes) e h =
    let room : ltb (off + 4) trace_line ≡ true = ground arith in
    let (read, short) = frame_line_at (off + 3) k bytes (omega arith) h.1 in
    let whole : b / 16 * 16 + b % 16 ≡ b = omega arith in
    rw (room, digit-hex (b / 16) (omega arith), digit-hex (b % 16) (omega arith), whole, read)
      (refl, omega arith)

-- The line that is kept for a frame reads back as the frame's first 84 bytes.
pub read_bytes-entry :
    (now : Now) (source : Option CString) (bytes : List ℕ)
    → All (λ b. b < 256) bytes
    → read_bytes (entry now frame source (frame_line 0 bytes)).line ≡ take 84 bytes
unfolding entry
read_bytes-entry now source bytes h =
    let (read, short) = frame_line_at 0 84 bytes refl h in
    rw (copied_of_lt trace_line (frame_line 0 bytes) (omega arith)) read
