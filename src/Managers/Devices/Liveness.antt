-- ===== src/Managers/Devices/Liveness.antt =====
-- Which devices count as lost, and how they come back.
use wireless_tsn_configurato.Base.{
  ◌≡◌, ◌∙◌, refl, ap, false, ◌&&◌, not, none, some, List, [], ◌∷◌, if◌then◌else◌, map, Bool-cases,
  inl, inr,
}
use wireless_tsn_configurato.Base.Int.{ℤ, ltb_ℤ}
use wireless_tsn_configurato.Base.Text.{CString, str_eq}
use wireless_tsn_configurato.Base.Table.{text_eq, find, find-modify, beq_refl}
use wireless_tsn_configurato.Common.{ok}
use wireless_tsn_configurato.Mvc.Model.{Model}
use wireless_tsn_configurato.Device.{Status, Device}
use wireless_tsn_configurato.Db.Engine.{Sqlite}
use wireless_tsn_configurato.Db.Devices as db_devices
use wireless_tsn_configurato.Managers.Devices.{
  Manager, device_key, is_error, is_silent, beat, get, mark_each, mark_offline_after,
  record_heartbeat,
}

-- The state of a device after the check for silence.
abbrev pub judged : ℤ → Device → Device
judged threshold d =
    if ltb_ℤ d.last_seen threshold && not (is_error d.status)
    then record d { status = Status.offline }
    else d

find-map-judged :
    (threshold : ℤ) (id : CString) (ds : List Device)
    → find device_key id (map (judged threshold) ds)
      ≡ elim (find device_key id ds) [ none ↦ none | some d ↦ some (judged threshold d) ]
unfolding find
find-map-judged threshold id [] = refl
find-map-judged threshold id (d ∷ ds) = elim (Bool-cases (str_eq d.id id)) [
  | inl t ↦ rw (same ∙ t) (rw t)
  | inr t ↦ rw (same ∙ t) (rw t (find-map-judged threshold id ds))
]
  where
    same : str_eq (judged threshold d).id id ≡ str_eq d.id id
    same = elim (Bool-cases (ltb_ℤ d.last_seen threshold && not (is_error d.status))) [
      | inl p ↦ rw p
      | inr p ↦ rw p
    ]

module _ {H C U : Type 0} (sql : Sqlite H) where
  mark_each-map :
      (model : Model C U) (threshold : ℤ) (h : H) (ds : List Device)
      → (mark_each sql model threshold h ds).0 ≡ map (judged threshold) ds
  unfolding mark_each is_silent
  mark_each-map model threshold h [] = refl
  mark_each-map model threshold h (d ∷ ds) =
      let h' =
        if ltb_ℤ d.last_seen threshold && not (is_error d.status)
        then (db_devices.set_status sql h d.id Status.offline).1
        else h in
      ap (◌∷◌ (judged threshold d)) (mark_each-map model threshold h' ds)

  -- After the check for silence each device of the table is offline if it was last seen before the
  -- threshold and was not in error, and otherwise as it was; no device comes or goes.
  pub get-mark_offline_after :
      (m : Manager H C U) (threshold : ℤ) (id : CString)
      → get (mark_offline_after sql m threshold).0 (some id)
        ≡ elim (get m (some id)) [ none ↦ none | some d ↦ some (judged threshold d) ]
  unfolding get mark_offline_after
  get-mark_offline_after m threshold id =
      ap (find device_key id) (mark_each-map m.model threshold m.db m.devices)
      ∙ find-map-judged threshold id m.devices

  pub beaten :
      (now : ℤ) (m : Manager H C U) (id : CString) (d : Device)
      → get m (some id) ≡ some d
      → get (record_heartbeat sql now m (some id)).1 (some id) ≡ some (beat now d)
  unfolding get record_heartbeat beat
  beaten now m id d known =
      rw (known, record_heartbeat)
        (rw (find-modify device_key id (beat now) (λ x. refl) id m.devices)
          (rw (beq_refl device_key id) (rw known)))

  taken :
      (now : ℤ) (m : Manager H C U) (id : CString) (d : Device)
      → get m (some id) ≡ some d
      → (record_heartbeat sql now m (some id)).0 ≡ ok
  unfolding get record_heartbeat
  taken now m id d known = rw (known, record_heartbeat)

  -- A known device that sends a heartbeat is online, seen at that time, and else as it was; no check
  -- for silence with a threshold up to that time changes it.
  pub heartbeat_survives :
      (now threshold : ℤ) (m : Manager H C U) (id : CString) (d : Device)
      → get m (some id) ≡ some d
      → ltb_ℤ now threshold ≡ false
      → let (result, m', calls) = record_heartbeat sql now m (some id) in
        let alive : Device = record d {
          heartbeat_at = now;
          last_seen = now;
          status = Status.online;
        } in
        (result ≡ ok)
        × (get m' (some id) ≡ some alive)
        × (get (mark_offline_after sql m' threshold).0 (some id) ≡ some alive)
  unfolding beat
  heartbeat_survives now threshold m id d known recent = (
    taken now m id d known,
    beaten now m id d known,
    get-mark_offline_after (record_heartbeat sql now m (some id)).1 threshold id
        ∙ rw (beaten now m id d known) (rw recent),
  )
