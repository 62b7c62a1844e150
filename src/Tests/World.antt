-- ===== src/Tests/World.antt =====
-- A small engine and a small client, on which the theorems about the database and the network are
-- tried out.
use package.text.Mathlib.Text.{◌==◌}
use mathlib.Core.List.{append_assoc, append-nil}
use wireless_tsn_configurato.Base.{
  ℕ, ◌≡◌, ◌∙◌, ap, refl, true, not, ◌||◌, Option, none, some, List, [], ◌∷◌, ◌++◌, map, drop,
  if◌then◌else◌,
}
use wireless_tsn_configurato.Base.Int.{ℤ, pos}
use wireless_tsn_configurato.Base.Text.{CString}
use wireless_tsn_configurato.Db.Engine.{Value, int, text, real, null, Sqlite, ReadsBack, step_each}
use wireless_tsn_configurato.Db.Qos as db_qos
use wireless_tsn_configurato.Db.Tsn as db_tsn
use wireless_tsn_configurato.Db.Tas as db_tas
use wireless_tsn_configurato.Db.Devices as db_devices
use wireless_tsn_configurato.Db.Qos.RoundTrip.{KeepsRows}
use wireless_tsn_configurato.Db.Tsn.Members.{KeepsStreams}
use wireless_tsn_configurato.Db.Tas.Entries.{IndexIsKeyword}
use wireless_tsn_configurato.Mqtt.{Mosquitto}

-- What the engine keeps: the last row of each of three tables, and the members of a stream.
pub record Store : Type 0 where
  pub qos : List Value
  pub stream : List Value
  pub members : List (List Value)
  pub device : List Value

abbrev pub empty_store : Store
empty_store = record { qos = []; stream = []; members = []; device = [] }

abbrev pub read_text : Value → Option CString
read_text null = none
read_text (int n) = none
read_text (text s) = some s
read_text (real b) = none

abbrev pub read_int : Value → ℤ
read_int null = pos 0
read_int (int n) = n
read_int (text s) = pos 0
read_int (real b) = pos 0

abbrev pub read_real : Value → ℕ
read_real (real b) = b
read_real _ = 0

abbrev pub engine : Sqlite Store
engine = record {
  prepares = λ h s. not (s == db_tas.entry_sql || s == db_tas.entries_sql);
  step = λ h s vs. (
    true,
    if s == db_qos.save_sql
        then record h { qos = vs }
        else if s == db_tsn.save_sql
        then record h { stream = vs }
        else if s == db_tsn.clear_sql
        then record h { members = [] }
        else if s == db_tsn.member_sql
        then record h { members = h.members ++ vs ∷ [] }
        else if s == db_devices.upsert_sql
        then record h { device = vs }
        else h,
  );
  rows = λ h s vs.
      if s == db_qos.load_sql
      then h.qos ∷ []
      else if s == db_tsn.load_sql
      then h.stream ∷ []
      else if s == db_tsn.members_sql
      then map (drop 1) h.members
      else if s == db_devices.all_sql
      then h.device ∷ []
      else [];
  column_text = read_text;
  column_int = read_int;
  column_double = read_real;
}

pub engine-ReadsBack : ReadsBack engine
engine-ReadsBack = record { text_column = λ s. refl; number_column = λ n. refl }

pub engine-KeepsRows : KeepsRows engine
unfolding db_qos.save_sql db_qos.load_sql db_tas.entry_sql db_tas.entries_sql
engine-KeepsRows = record { inserted = λ h cfg done. (refl, refl) }

pub engine-IndexIsKeyword : IndexIsKeyword engine
unfolding db_tas.entry_sql db_tas.entries_sql db_tas.save_sql db_tas.clear_sql db_tas.load_sql
engine-IndexIsKeyword = record {
  well_formed = λ h. (refl, refl, refl);
  malformed = λ h. (refl, refl);
}

members_grow :
    (h : Store) (rows : List (List Value))
    → step_each engine h db_tsn.member_sql rows ≡ record h { members = h.members ++ rows }
unfolding step_each db_qos.save_sql db_tsn.save_sql db_tsn.clear_sql db_tsn.member_sql
members_grow h [] = rw append-nil
members_grow h (r ∷ rows) =
    members_grow (record h { members = h.members ++ r ∷ [] }) rows
    ∙ ap (λ ms. record h { members = ms }) (append_assoc h.members (r ∷ []) rows)

pub engine-KeepsStreams : KeepsStreams engine
unfolding db_qos.save_sql db_qos.load_sql db_tsn.save_sql db_tsn.clear_sql db_tsn.member_sql
    db_tsn.load_sql db_tsn.members_sql db_tas.entry_sql db_tas.entries_sql
engine-KeepsStreams = record {
  written = λ h s named steps.
      let grown =
        members_grow (record h { stream = db_tsn.bound s; members = [] }) (db_tsn.member_rows s) in
      (refl, ap (λ h'. h'.stream ∷ []) grown, refl, ap (λ h'. map (drop 1) h'.members) grown);
}

-- A client that remembers the topics of what it publishes, and takes all of it.
abbrev pub wire : Mosquitto (List CString)
wire = record {
  publish = λ b topic payload. (true, b ++ topic ∷ []);
  subscribe = λ b topic. (true, b);
}
