-- ===== src/Tests/Bridge.antt =====
-- The theorems about the bridge between the OPC UA server and the endpoint, at concrete inputs.
use wireless_tsn_configurato.Base.{
  ℕ, ◌≡◌, refl, true, none, some, List, [], ◌∷◌, ◌++◌, arith, map, All,
}
use wireless_tsn_configurato.Base.Int.{pos}
use wireless_tsn_configurato.Base.Text.{CString, codes}
use wireless_tsn_configurato.Common.StrUtil.{starts_with, is_blank}
use wireless_tsn_configurato.Decimal.Scan.{strtoll, skip_spaces}
use wireless_tsn_configurato.Endpoint as endpoint
use wireless_tsn_configurato.Endpoint.{Net}
use wireless_tsn_configurato.Bridge.Json.{jint}
use wireless_tsn_configurato.Bridge.Commands.{Bridge, Nodes}
use wireless_tsn_configurato.Bridge.Sends.{SentTo}
use wireless_tsn_configurato.Bridge.Address.{Turn, run, heard_by, run-SentTo}
use wireless_tsn_configurato.Bridge.Servo.{polls, handed, changes, said, polls-changes}
use wireless_tsn_configurato.Tests.Wire.{started}

abbrev quoted : CString → CString → CString
quoted key rest = b'"' ∷ (key ++ (b'"' ∷ b':' ∷ rest))

-- {"vlan_id":100,"priority": 5}
abbrev snapshot : CString
snapshot = b'{' ∷ quoted (codes "vlan_id") (codes "100," ++ quoted (codes "priority") (codes " 5}"))

vlan_found : jint snapshot (codes "vlan_id") (pos 0) ≡ pos 100
unfolding jint starts_with is_blank strtoll skip_spaces
vlan_found = refl

abbrev bridge : Bridge
bridge = record {
  ep = some (10, 4000);
  last_tsn = [];
  last_keepalive = pos 0;
  last_servo = 90;
  last_relay = 0;
  last_beep = 0;
  primed = true;
}

abbrev idle : Nodes
idle = record {
  tsn_config = none;
  servo_angle = some 45;
  relay_on = none;
  beep_ms = none;
  sonar_trig = some 1;
  reboot = none;
}

abbrev turns : List Turn
turns =
    record { sends = λ f. true; now = pos 0; nodes = idle; got = none }
    ∷ record { sends = λ f. true; now = pos 1; nodes = idle; got = some ((11, 4000), 0 ∷ []) }
    ∷ record { sends = λ f. true; now = pos 2; nodes = idle; got = some ((12, 4000), 0 ∷ []) }
    ∷ []

first_heard : heard_by turns none ≡ some (11, 4000)
unfolding heard_by
first_heard = refl

run-SentTo_example : All (SentTo (heard_by turns none)) (run turns (record bridge { ep = none })).1
run-SentTo_example = run-SentTo turns (record bridge { ep = none }) refl

abbrev angles : List ℕ
angles = 90 ∷ 45 ∷ 45 ∷ 65526 ∷ []

angles_changed : changes 90 angles ≡ 45 ∷ 65526 ∷ []
unfolding changes
angles_changed = refl

polls-changes_example :
    handed started (polls (λ f. true) bridge angles) ≡ map said (changes 90 angles)
polls-changes_example =
    polls-changes (λ f. true) (λ f. refl) started bridge (10, 4000) angles refl refl (omega arith)
