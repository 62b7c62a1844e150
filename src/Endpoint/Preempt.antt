-- ===== src/Endpoint/Preempt.antt =====
-- stm32-tsn/tsn/eth_proto.c: the demonstration of frame preemption, three frames every two seconds.
pub mod Discarded
pub mod Sequence
use wireless_tsn_configurato.Base.{
  ℕ, ◌+◌, ◌-◌, ◌%◌, ◌^◌, ◌&&◌, ◌||◌, not, none, some, List, [], ◌∷◌, ◌++◌, ltb, ◌==◌, if◌then◌else◌,
  length, take, replicate,
}
use wireless_tsn_configurato.Base.Text.{CString, codes}
use wireless_tsn_configurato.Decimal.{show_ℕ}
use wireless_tsn_configurato.Frame.{pack}
use wireless_tsn_configurato.Endpoint.{Net, Sent, tagged, build_tagged_pcp}

-- What `snprintf` prints for `%04u`.
unfoldable pub four_digits : ℕ → CString
four_digits n = let digits = show_ℕ n in replicate (4 - length digits) 48 ++ digits

unfoldable pub marker : ℕ → CString
unfolding four_digits
marker seq = codes "PREEMPTIBLE " ++ four_digits (seq % 2 ^ 16)

-- Where the frame is cut off: behind its headers, and where its end mark still fits the buffer.
unfoldable pub cut : ℕ → ℕ
cut full_len =
    let at = if ltb full_len 40 then 32 else full_len - 8 in if ltb 80 (at + 2) then 78 else at

-- The frame that is cut off, with its end mark.
unfoldable pub aborted : List ℕ → List ℕ
unfolding cut
aborted full = take (cut (length full)) full ++ (0xFF ∷ 0xFF ∷ [])

-- That frame, the urgent one, and the whole one.
unfoldable pub preempt_frames : Net → List ℕ → List Sent
unfolding aborted build_tagged_pcp
preempt_frames s frame =
    let full = build_tagged_pcp s.vlan_id frame s.pcp in
    let urgent : List Sent = elim (pack 1 8 (codes "PREEMPTING!")) [
      | none ↦ []
      | some f ↦ tagged (build_tagged_pcp s.vlan_id f 7) ∷ []
    ] in
    tagged (aborted full) ∷ (urgent ++ (tagged full ∷ []))

-- `send_preempt_seq` at its counter `seq`.
unfoldable pub send_preempt_seq : Net → ℕ → ℕ × List Sent
unfolding preempt_frames marker
send_preempt_seq s seq =
    let next = (seq + 1) % 2 ^ 32 in
    if not s.raw_sock || s.vlan_id == 0 then (seq, []) else elim (pack 1 7 (marker next)) [
      | none ↦ (next, [])
      | some frame ↦ (next, preempt_frames s frame)
    ]

-- `preempt_work_fn`, up to its call of itself two seconds later.
unfoldable pub preempt_work_fn : Net → ℕ → ℕ × List Sent
unfolding send_preempt_seq
preempt_work_fn s seq =
    if ltb 0 s.preempt && ltb 0 s.vlan_id then send_preempt_seq s seq else (seq, [])
