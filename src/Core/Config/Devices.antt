-- ===== src/Core/Config/Devices.antt =====
-- The trusted devices of desktop/core/src/config.rs against their abstract view, a function of the
-- identifier.
use bit_drive.Prelude.{
  ◌≡◌, ◌∙◌, ap, refl, String, Option, none, some, List, [], ◌∷◌, ◌++◌, if◌then◌else◌, Bool-cases,
  inl, inr,
}
use mathlib.Core.Option.{map as option_map}
use bit_drive.Prelude.Eq.{eqb, string_eq}
use bit_drive.Prelude.Map.{eqb_refl}
use bit_drive.Prelude.Keys.{IsUnique}
use bit_drive.Core.Settings.{TrustedDevice}
use bit_drive.Core.Config.Trusted.{
  without, find_device, mark_seen, seen_at, ids, find_device-without, find_device-append,
  find_device-append_ne, find_device-mark_seen, without-IsUnique, append-IsUnique, mark_seen-ids,
  elem-without,
}
use bit_drive.Core.Config.{
  Formats, Write, ConfigManager, save, with_devices, get_trusted_device, get_trusted_devices,
  add_trusted_device, remove_trusted_device, update_device_last_seen,
}
use bit_drive.Core.Config.Saved.{save-config}

-- The calls that change the list, each with what becomes of the file.
pub data Command : Type 0 where
  add : TrustedDevice → Command
  forget : String → Command
  see : String → (now : String) → Command

abbrev pub Directory : Type 0
Directory = String → Option TrustedDevice

-- What a call means.
unfoldable pub act : Directory → Command → Directory
act view (add d) j = if eqb d.device_id j then some d else view j
act view (forget id) j = if eqb id j then none else view j
act view (see id now) j = if eqb id j then option_map (seen_at now) (view j) else view j

unfoldable pub act_all : Directory → List (Command × Write) → Directory
unfolding act
act_all view [] = view
act_all view (c ∷ cs) = act_all (act view c.0) cs

module _ {Json : Type 0} (io : Formats Json) where
  unfoldable pub serve : ConfigManager Json → Command × Write → ConfigManager Json
  unfolding add_trusted_device remove_trusted_device update_device_last_seen
  serve m (add d, w) = (add_trusted_device io m d w).0
  serve m (forget id, w) = (remove_trusted_device io m id w).0
  serve m (see id now, w) = (update_device_last_seen io m id now w).0

  unfoldable pub serve_all : ConfigManager Json → List (Command × Write) → ConfigManager Json
  unfolding serve
  serve_all m [] = m
  serve_all m (c ∷ cs) = serve_all (serve m c) cs

  devices_after :
      (m : ConfigManager Json) (ds : List TrustedDevice) (w : Write)
      → (save io (with_devices m ds) w).0.config.device.trusted_devices ≡ ds
  unfolding with_devices
  devices_after m ds w = ap (λ c. c.device.trusted_devices) (save-config io (with_devices m ds) w)

  find_device-add :
      (d : TrustedDevice) (j : String) (ds : List TrustedDevice)
      → find_device j (without d.device_id ds ++ d ∷ [])
        ≡ (if eqb d.device_id j then some d else find_device j ds)
  find_device-add d j ds =
      let gone = find_device-without d.device_id j ds in
      elim (Bool-cases (eqb d.device_id j)) [
        | inl same ↦
            find_device-append j d (without d.device_id ds) (gone ∙ rw same refl) ∙ rw same refl
        | inr other ↦
            find_device-append_ne j d (without d.device_id ds) other ∙ gone ∙ rw other refl
      ]

  serve-act :
      (m : ConfigManager Json) (c : Command × Write) (j : String)
      → get_trusted_device (serve m c) j ≡ act (get_trusted_device m) c.0 j
  unfolding serve act get_trusted_device add_trusted_device remove_trusted_device
      update_device_last_seen
  serve-act m (add d, w) j =
      let ds = m.config.device.trusted_devices in
      ap (find_device j) (devices_after m (without d.device_id ds ++ d ∷ []) w)
      ∙ find_device-add d j ds
  serve-act m (forget id, w) j =
      let ds = m.config.device.trusted_devices in
      ap (find_device j) (devices_after m (without id ds) w) ∙ find_device-without id j ds
  serve-act m (see id now, w) j =
      let ds = m.config.device.trusted_devices in
      ap (find_device j) (devices_after m (mark_seen now id ds) w)
      ∙ find_device-mark_seen now id j ds

  act-agree :
      (v u : Directory) (c : Command)
      → ((j : String) → v j ≡ u j)
      → (j : String) → act v c j ≡ act u c j
  unfolding act
  act-agree v u (add d) h j = rw (h j) refl
  act-agree v u (forget id) h j = rw (h j) refl
  act-agree v u (see id now) h j = rw (h j) refl

  act_all-agree :
      (v u : Directory) (cs : List (Command × Write))
      → ((j : String) → v j ≡ u j)
      → (j : String) → act_all v cs j ≡ act_all u cs j
  unfolding act_all
  act_all-agree v u [] h j = h j
  act_all-agree v u (c ∷ cs) h j = act_all-agree (act v c.0) (act u c.0) cs (act-agree v u c.0 h) j

  -- Looking a device up after any sequence of `add_trusted_device`, `remove_trusted_device` and
  -- `update_device_last_seen` gives what the same sequence gives on a function from identifiers to
  -- devices, where adding overwrites, removing forgets and seeing sets the time of a device that is
  -- there; whether the file could be written at each call plays no part.
  pub get_trusted_device-serve_all :
      (m : ConfigManager Json) (cs : List (Command × Write)) (j : String)
      → get_trusted_device (serve_all m cs) j ≡ act_all (get_trusted_device m) cs j
  unfolding serve_all act_all
  get_trusted_device-serve_all m [] j = refl
  get_trusted_device-serve_all m (c ∷ cs) j =
      get_trusted_device-serve_all (serve m c) cs j
      ∙ act_all-agree (get_trusted_device (serve m c)) (act (get_trusted_device m) c.0) cs
          (serve-act m c) j

  serve-IsUnique :
      (m : ConfigManager Json) (c : Command × Write)
      → IsUnique (ids (get_trusted_devices m))
      → IsUnique (ids (get_trusted_devices (serve m c)))
  unfolding serve get_trusted_devices add_trusted_device remove_trusted_device
      update_device_last_seen
  serve-IsUnique m (add d, w) u =
      let ds = m.config.device.trusted_devices in
      let gone = elem-without d.device_id d.device_id ds in
      rw (devices_after m (without d.device_id ds ++ d ∷ []) w) (
        append-IsUnique d (without d.device_id ds) (without-IsUnique d.device_id ds u)
          (rw (eqb_refl d.device_id) at gone))
  serve-IsUnique m (forget id, w) u =
      let ds = m.config.device.trusted_devices in
      rw (devices_after m (without id ds) w) (without-IsUnique id ds u)
  serve-IsUnique m (see id now, w) u =
      let ds = m.config.device.trusted_devices in
      rw (devices_after m (mark_seen now id ds) w, mark_seen-ids now id ds) u

  -- No two entries of the list of trusted devices have the same identifier, if none had before any
  -- sequence of calls that change it.
  pub serve_all-trusted-IsUnique :
      (m : ConfigManager Json) (cs : List (Command × Write))
      → IsUnique (ids (get_trusted_devices m))
      → IsUnique (ids (get_trusted_devices (serve_all m cs)))
  unfolding serve_all
  serve_all-trusted-IsUnique m [] u = u
  serve_all-trusted-IsUnique m (c ∷ cs) u =
      serve_all-trusted-IsUnique (serve m c) cs (serve-IsUnique m c u)
