-- ===== src/Tests/Storage.antt =====
-- The theorems about the database at concrete inputs.
use wireless_tsn_configurato.Base.{◌≡◌, ◌≢◌, refl, none, some, [], ◌∷◌, arith}
use wireless_tsn_configurato.Base.Int.{pos}
use wireless_tsn_configurato.Base.Text.{codes, str_eq}
use wireless_tsn_configurato.Common.{ok}
use wireless_tsn_configurato.Gcl.{gate_open}
use wireless_tsn_configurato.Db.Engine.{int, text, checked}
use wireless_tsn_configurato.Db.Qos as db_qos
use wireless_tsn_configurato.Db.Qos.{QosConfig}
use wireless_tsn_configurato.Db.Tsn as db_tsn
use wireless_tsn_configurato.Db.Tsn.Members.{Fits, StepsDone, load-save_stream}
use wireless_tsn_configurato.Db.Tas as db_tas
use wireless_tsn_configurato.Db.Tas.{Schedule}
use wireless_tsn_configurato.Db.Tas.Entries.{save_drops_entries}
use wireless_tsn_configurato.Tests.World.{
  empty_store, engine, engine-ReadsBack, engine-KeepsStreams, engine-IndexIsKeyword,
}
use wireless_tsn_configurato.Tests.Data.{motor}

abbrev voice : QosConfig
voice = record {
  device_id = codes "stm";
  priority = pos 6;
  traffic_class = pos 2;
  bandwidth_kbps = pos 1000;
  latency_ms = pos 10;
  preemption = pos 1;
}

voice_saved : (db_qos.save engine empty_store voice).0 ≡ ok
unfolding db_qos.save db_qos.save_sql db_tas.entry_sql db_tas.entries_sql checked
voice_saved = refl

motor_saved : (db_tsn.save engine empty_store motor).0 ≡ ok
unfolding db_tsn.save db_tsn.save_sql db_tsn.clear_sql db_tsn.member_sql db_tas.entry_sql
    db_tas.entries_sql
motor_saved = refl

motor-Fits : Fits motor
unfolding str_eq
motor-Fits = record {
  stream_id = omega arith;
  name = omega arith;
  talker = omega arith;
  comment = omega arith;
  listeners = ((omega arith, refl), ((omega arith, refl), tt));
  count = omega arith;
  status = tt;
}

motor_steps : StepsDone engine empty_store motor
unfolding db_tsn.member_rows db_tsn.listener_rows
motor_steps = record { row = refl; cleared = refl; members = (refl, (refl, tt)) }

abbrev gates : Schedule
gates = record {
  id = codes "gates";
  name = codes "Gates";
  cycle_time_ns = pos 1000000;
  deploy_target = [];
  entries = record { gate_state = gate_open; duration_ns = pos 1000000 } ∷ [];
}

load-save_stream_example :
    db_tsn.load engine (db_tsn.save engine empty_store motor).1 (codes "motor")
    ≡ (ok, some (record motor { listeners = codes "stm" ∷ [] }))
load-save_stream_example =
    load-save_stream engine engine-ReadsBack engine-KeepsStreams empty_store motor motor-Fits
      motor_steps motor_saved

save_drops_entries_example :
    let stored =
      (engine.step empty_store db_tas.save_sql
        (text (codes "gates") ∷ text (codes "Gates") ∷ int (pos 1000000) ∷ text [] ∷ [])).1 in
    (db_tas.save engine empty_store gates
      ≡ (ok, (engine.step stored db_tas.clear_sql (text (codes "gates") ∷ [])).1))
    × ((db_tas.load engine empty_store (codes "gates")).1 ≡ none)
    × ((db_tas.load engine empty_store (codes "gates")).0 ≢ ok)
save_drops_entries_example =
    save_drops_entries engine engine-IndexIsKeyword empty_store gates (codes "gates")
