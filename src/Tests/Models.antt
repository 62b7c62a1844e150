-- ===== src/Tests/Models.antt =====
-- The theorems about the plain models and the text helpers at concrete inputs.
use wireless_tsn_configurato.Base.{zero, ◌≡◌, ◌↔◌, refl, true, some, [], ◌∷◌, arith}
use wireless_tsn_configurato.Base.Int.{pos}
use wireless_tsn_configurato.Base.Text.{codes}
use wireless_tsn_configurato.Common.{ok}
use wireless_tsn_configurato.Common.StrUtil.{str_valid_utf8}
use wireless_tsn_configurato.Common.StrUtil.Utf8.{str_valid_utf8-Sequences, Sequences}
use wireless_tsn_configurato.Gcl.{Gcl, gate_open}
use wireless_tsn_configurato.Tas.{ScheduleModel}
use wireless_tsn_configurato.Vlan as vlan

abbrev cycle : Gcl
cycle = record {
  entries = record { gate_state = gate_open; duration_ns = pos 400 } ∷ [];
  cycle_time_ns = pos 1000;
}

abbrev line : ScheduleModel
line = record {
  id = codes "line";
  name = codes "Line";
  cycle_time_ns = pos 1000;
  deploy_target = [];
  gcl = cycle;
}

abbrev lights : vlan.GroupModel
lights = record { id = []; name = codes "lights"; vlan_id = pos 100 }

abbrev drives : vlan.GroupModel
drives = record { id = []; name = codes "drives"; vlan_id = pos 10 }

lights_ok : vlan.validate_group lights ≡ ok
unfolding vlan.validate_group
lights_ok = refl

drives_ok : vlan.validate_group drives ≡ ok
unfolding vlan.validate_group
drives_ok = refl

str_valid_utf8-Sequences_example :
    (str_valid_utf8 (some (0xC3 ∷ 0xA4 ∷ [])) ≡ true) ↔ Sequences zero (0xC3 ∷ 0xA4 ∷ [])
str_valid_utf8-Sequences_example =
    str_valid_utf8-Sequences (0xC3 ∷ 0xA4 ∷ []) (omega arith, (omega arith, tt))
