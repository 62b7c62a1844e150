-- ===== src/Device/Names.antt =====
-- The names of a device's kind, and how many features it reports.
use wireless_tsn_configurato.Base.{◌≡◌, refl, some, map}
use wireless_tsn_configurato.Base.Text.{CString, str_eq}
use wireless_tsn_configurato.Device.{Kind, kind_str, to_lower, kind_parse}

-- A kind is read back from its name in any mixture of capitals: a text that differs from the name of
-- a kind by capitals alone is read as that kind.
pub kind_parse-kind_str :
    (k : Kind) (s : CString) → map to_lower s ≡ map to_lower (kind_str k) → kind_parse (some s) ≡ k
unfolding kind_parse kind_str
kind_parse-kind_str Kind.unknown s e = rw e (unfold str_eq in refl)
kind_parse-kind_str Kind.esp32 s e = rw e (unfold str_eq in refl)
kind_parse-kind_str Kind.raspberrypi s e = rw e (unfold str_eq in refl)
kind_parse-kind_str Kind.stm32 s e = rw e (unfold str_eq in refl)
