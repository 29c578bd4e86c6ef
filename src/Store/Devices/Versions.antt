-- ===== src/Store/Devices/Versions.antt =====
-- Optimistic locking by versions, as `UpdateDevice` of memory.go does it.
use orbit_telemetry_orchestr.Prelude.{
  ℕ, suc, String, ◌≡◌, refl, ◌⊎◌, inl, inr, true, false, Option, none, some, arith, eq_iff, ◌==◌,
  string_eq, int_eq, ℤ, pos, inc64, Bool-cases, lookup, insert, lookup-insert, or_not_found, ◌∙◌,
  Option-cases, ok, err,
}
use orbit_telemetry_orchestr.Prelude.Errors.{not_found, conflict}
use orbit_telemetry_orchestr.Domain.Device.{Device}
use orbit_telemetry_orchestr.Store.{Memory, is_stale}
use orbit_telemetry_orchestr.Store.Devices.{get_device, update_device}

inc64-ne : (v : ℕ) → (inc64 (pos v) == pos v) ≡ false
inc64-ne v = ground arith

module _ {F : Type 0} where
  -- An update is accepted exactly if the device is stored and its version is the expected one, or
  -- none is expected; then the device is stored as given, and otherwise nothing changes.
  pub update_device_lem :
      (d : Device) (expected : ℤ) (m : Memory F)
      → (((current : Device) × (get_device m d.id ≡ ok current)
            × (is_stale current.version expected ≡ false)
            × (update_device d expected m
                ≡ (ok tt, record m { devices = insert d.id d m.devices })))
          ⊎ ((current : Device) × (get_device m d.id ≡ ok current)
              × (is_stale current.version expected ≡ true)
              × (update_device d expected m ≡ (err conflict, m)))
          ⊎ ((get_device m d.id ≡ err not_found)
              × (update_device d expected m ≡ (err not_found, m))))
  unfolding update_device get_device
  update_device_lem d expected m = elim (Option-cases (lookup d.id m.devices)) [
    | inl e ↦ inr (inr (ground arith, ground arith))
    | inr (current, e) ↦ elim (Bool-cases (is_stale current.version expected)) [
      | inl stale ↦ inr (inl (current, ground arith, stale, ground arith))
      | inr fresh ↦ inl (current, ground arith, fresh, ground arith)
    ]
  ]

  pub accepted :
      (d current : Device) (expected : ℤ) (m : Memory F)
      → lookup d.id m.devices ≡ some current
      → is_stale current.version expected ≡ false
      → update_device d expected m ≡ (ok tt, record m { devices = insert d.id d m.devices })
  unfolding update_device
  accepted d current expected m found fresh = ground arith

  refused :
      (d current : Device) (expected : ℤ) (m : Memory F)
      → lookup d.id m.devices ≡ some current
      → is_stale current.version expected ≡ true
      → update_device d expected m ≡ (err conflict, m)
  unfolding update_device
  refused d current expected m found stale = ground arith

  stored :
      (m : Memory F) (id : String) {d : Device}
      → get_device m id ≡ ok d
      → lookup id m.devices ≡ some d
  unfolding get_device
  stored m id h = go (lookup id m.devices) h
    where
      go : {d : Device} (o : Option Device) → or_not_found o ≡ ok d → o ≡ some d
      go none h = ground arith
      go (some e) h = ground arith

  -- Two writers read the device at one version of at least 1, and each writes it back with the next
  -- version, expecting the one that it read. The first is accepted, and the second is refused with a
  -- conflict and leaves what the first wrote.
  pub second_writer_conflicts :
      (m : Memory F) (read first second : Device) (v : ℕ)
      → get_device m read.id ≡ ok read
      → read.version ≡ pos (suc v)
      → first.id ≡ read.id
      → first.version ≡ inc64 read.version
      → second.id ≡ read.id
      → let (r, m') = update_device first read.version m in
        (r ≡ ok tt)
        × (get_device m' read.id ≡ ok first)
        × (update_device second read.version m' ≡ (err conflict, m'))
  unfolding get_device
  second_writer_conflicts m read first second v got version id_first version_first id_second =
      let m' : Memory F = record m { devices = insert first.id first m.devices } in
      let found : lookup first.id m.devices ≡ some read = rw id_first (stored m read.id got) in
      let there : lookup read.id m'.devices ≡ some first =
        lookup-insert first.id read.id first m.devices ∙ ground (arith, eq_iff first.id read.id) in
      rw (accepted first read read.version m found (ground arith)) (
        refl,
        ground arith,
        refused second first read.version m' (rw id_second there)
            (ground (arith, inc64-ne (suc v))),
      )
