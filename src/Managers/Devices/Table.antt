-- ===== src/Managers/Devices/Table.antt =====
-- The table of devices as a map from ids to devices.
use wireless_tsn_configurato.Base.{
  ◌+◌, ◌≤◌, ◌<◌, ◌≡◌, ◌⊎◌, refl, true, false, none, some, [], ◌∷◌, ◌++◌, arith, leb, if◌then◌else◌,
  length, length-append, Bool-cases, Option-cases, inl, inr,
}
use wireless_tsn_configurato.Base.Int.{ℤ, pos, eqb_ℤ}
use wireless_tsn_configurato.Base.Text.{CString, codes, str_eq, str_eq_iff}
use wireless_tsn_configurato.Base.Table.{
  text_eq, find, has, overwrite, Unique, find-overwrite, find-append_new, find-erase, has_of_find,
  Unique-overwrite, Unique-append_new, Unique-erase, length-overwrite, length-erase,
}
use wireless_tsn_configurato.Common.{ok, not_found, busy}
use wireless_tsn_configurato.Device.{Device}
use wireless_tsn_configurato.Db.Engine.{Sqlite}
use wireless_tsn_configurato.Db.Devices as db_devices
use wireless_tsn_configurato.Managers.Devices.{
  Manager, device_key, max_db_devices, publish_device_event, stamped, upsert, remove, get,
}

-- The devices are within the array, and no two have one id.
pub record IsSound {H C U : Type 0} (m : Manager H C U) : Type 0 where
  pub bounded : length m.devices ≤ max_db_devices
  pub unique : Unique device_key m.devices

module _ {H C U : Type 0} (sql : Sqlite H) (now : ℤ) (m : Manager H C U) (d : Device) where
  known_again :
      has device_key d.id m.devices ≡ true
      → upsert sql now m (some d) ≡ (
        ok,
        record m {
          devices = overwrite device_key (stamped now d) m.devices;
          db = (db_devices.upsert sql m.db (stamped now d)).1;
        },
        publish_device_event m.model (codes "updated") (stamped now d),
      )
  unfolding upsert stamped
  known_again known = rw known

  discovered :
      has device_key d.id m.devices ≡ false
      → length m.devices < max_db_devices
      → upsert sql now m (some d) ≡ (
        ok,
        record m {
          devices = m.devices ++ (stamped now d ∷ []);
          db = (db_devices.upsert sql m.db (stamped now d)).1;
        },
        publish_device_event m.model (codes "discovered") (stamped now d),
      )
  unfolding upsert stamped
  discovered new room =
      let space : leb max_db_devices (length m.devices) ≡ false = ground arith in rw (new, space)

  full :
      has device_key d.id m.devices ≡ false
      → max_db_devices ≤ length m.devices
      → upsert sql now m (some d) ≡ (busy, m, [])
  unfolding upsert stamped
  full new over =
      let spent : leb max_db_devices (length m.devices) ≡ true = ground arith in rw (new, spent)

  -- In a sound table a device of a known id takes the place of the old one, one of a new id is added
  -- while the table has room, and both keep the table sound; then its id gives the device as it is, only
  -- that a time of 0 becomes the present, and every other id gives what it gave before. A new id for a full
  -- table is refused and leaves the manager, with its database, as it was.
  pub get-upsert :
      IsSound m
      → let (result, m', calls) = upsert sql now m (some d) in
        ((result ≡ ok)
          × ((has device_key d.id m.devices ≡ true) ⊎ (length m.devices < max_db_devices))
          × IsSound m'
          × ((k : CString)
              → get m' (some k) ≡ (
                  if str_eq d.id k
                  then some (record d {
                    last_seen = if eqb_ℤ d.last_seen (pos 0) then now else d.last_seen;
                  })
                  else get m (some k))))
        ⊎ ((result ≡ busy)
            × (has device_key d.id m.devices ≡ false)
            × (length m.devices ≡ max_db_devices)
            × (m' ≡ m)
            × (calls ≡ []))
  unfolding get stamped
  get-upsert v = elim (Bool-cases (has device_key d.id m.devices)) [
    | inl known ↦ rw (known_again known) (
        inl (
          refl,
          inl known,
          record {
            bounded =
                omega (arith, length-overwrite device_key (stamped now d) m.devices, v.bounded);
            unique = Unique-overwrite device_key (stamped now d) m.devices v.unique;
          },
          (λ k. find-overwrite device_key k (stamped now d) m.devices known),
        ))
    | inr new ↦ elim (Bool-cases (leb max_db_devices (length m.devices))) [
      | inl over ↦
          let filled : max_db_devices ≤ length m.devices = ground arith in
          rw (full new filled) (inr (refl, new, omega (arith, v.bounded, filled), refl, refl))
      | inr room ↦
          let space : length m.devices < max_db_devices = ground arith in
          rw (discovered new space) (
            inl (
              refl,
              inr space,
              record {
                bounded = omega (arith, length-append m.devices (stamped now d ∷ []));
                unique = Unique-append_new device_key (stamped now d) m.devices v.unique new;
              },
              (λ k. find-append_new device_key k (stamped now d) m.devices new),
            ))
    ]
  ]

module _ {H C U : Type 0} (sql : Sqlite H) (m : Manager H C U) (id : CString) where
  -- From a sound table: a device that is removed is no longer found, every other id gives what it
  -- gave, the table is one shorter and stays sound; an unknown id is refused and changes nothing.
  pub get-remove :
      IsSound m
      → let (result, m', calls) = remove sql m (some id) in
        IsSound m'
        × ((k : CString) → get m' (some k) ≡ (if str_eq id k then none else get m (some k)))
        × (((result ≡ ok) × (length m'.devices + 1 ≡ length m.devices))
            ⊎ ((result ≡ not_found) × (m' ≡ m) × (calls ≡ [])))
  unfolding remove get
  get-remove v = elim (Option-cases (find device_key id m.devices)) [
    | inl missing ↦ rw (missing, remove) (v, unchanged missing, inr (refl, refl, refl))
    | inr (d, found) ↦
        let shorter =
          length-erase device_key id m.devices (has_of_find device_key id m.devices d found) in
        rw (found, remove)
          (
            record {
              bounded = omega (arith, v.bounded, shorter);
              unique = Unique-erase device_key id m.devices v.unique;
            },
            (λ k. find-erase device_key k id m.devices v.unique),
            inl (refl, shorter),
          )
  ]
    where
      unchanged :
          find device_key id m.devices ≡ none
          → (k : CString)
          → find device_key k m.devices
            ≡ (if str_eq id k then none else find device_key k m.devices)
      unchanged missing k = elim (Bool-cases (str_eq id k)) [
        | inl t ↦ rw t (rw (← (str_eq_iff id k).0 t) missing)
        | inr t ↦ rw t
      ]
