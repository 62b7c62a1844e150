-- ===== src/Endpoint/Preempt/Sequence.antt =====
-- The three frames of the demonstration of preemption in stm32-tsn/tsn/eth_proto.c, as a receiver
-- takes them.
use wireless_tsn_configurato.Base.{ℕ, ◌^◌, ◌+◌, ◌%◌, List}
use wireless_tsn_configurato.Base.Text.{CString, codes}
use wireless_tsn_configurato.Endpoint.{Net}

abbrev urgent_text : CString
urgent_text = codes "PREEMPTING!"

module _ (s : Net) (seq : ℕ) where
  abbrev next : ℕ
  next = (seq + 1) % 2 ^ 32
