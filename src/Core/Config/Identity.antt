-- ===== src/Core/Config/Identity.antt =====
-- The identifier of this device (desktop/core/src/config.rs).
use bit_drive.Prelude.{
  ◌≡◌, ◌≢◌, ◌∙◌, ap, refl, ℕ, String, true, false, Option, none, some, List, ◌==◌, length, inr,
  ==_iff, arith,
}
use bit_drive.Prelude.Eq.{string_eq}
use bit_drive.Errors.{Result, ok}
use bit_drive.Core.Config.{
  Formats, Write, ConfigManager, save, create_id, use_id, id_found, get_or_create_device_id,
  answer_id,
}
use bit_drive.Core.Config.Saved.{save-config}

module _ {Json : Type 0} (io : Formats Json) where
  -- An identifier that stands in the configuration is answered without a change.
  known :
      (m : ConfigManager Json) (fresh : List ℕ) (w : Write) (text : String) (id : List ℕ)
      → m.config.device.device_id ≡ some text
      → io.decode text ≡ inr id
      → length id ≡ 16
      → get_or_create_device_id io m fresh w ≡ (m, ok id)
  unfolding get_or_create_device_id id_found use_id
  known m fresh w text id stored law long =
      let sized : (length id == 16) ≡ true = (==_iff (length id) 16).1 long in
      rw (stored, law, sized) refl

  answer_id-state :
      (id : List ℕ) (run : ConfigManager Json × Result (Unit {0})) → (answer_id id run).0 ≡ run.0
  unfolding answer_id
  answer_id-state id (m, r) = refl

  create_id-stored :
      (m : ConfigManager Json) (fresh : List ℕ) (w : Write)
      → (create_id io m fresh w).0.config.device.device_id ≡ some (io.encode fresh)
  unfolding create_id
  create_id-stored m fresh w =
      let next = record m {
        config = record m.config {
          device = record m.config.device { device_id = some (io.encode fresh) };
        };
      } in
      ap (λ r. r.config.device.device_id) (answer_id-state fresh (save io next w))
      ∙ ap (λ c. c.device.device_id) (save-config io next w)

  -- None is stored, or one that decodes to bytes that are not 16.
  unfoldable pub IsUnusable : Option String → Type 0
  IsUnusable none = Unit
  IsUnusable (some text) = (bytes : List ℕ) × (io.decode text ≡ inr bytes) × (length bytes ≢ 16)

  id_found-create_id :
      (m : ConfigManager Json) (fresh : List ℕ) (w : Write) (stored : Option String)
      → IsUnusable stored
      → id_found io m fresh w stored ≡ create_id io m fresh w
  unfolding id_found use_id IsUnusable
  id_found-create_id m fresh w none h = refl
  id_found-create_id m fresh w (some text) (bytes, law, short) =
      let sized : (length bytes == 16) ≡ false = ground (arith, short, ==_iff (length bytes) 16) in
      rw (law, sized) refl

  -- With base64 that decodes what it encoded and random bytes of length 16: after a call that found
  -- no usable identifier in the configuration, none at all or one that decodes to bytes that are not
  -- 16, every later call answers the identifier of the first and changes nothing, whatever its random
  -- bytes, and also when the file could not be written at the first call.
  pub get_or_create_device_id_again :
      (m : ConfigManager Json) (fresh : List ℕ) (w : Write) (later : List ℕ) (v : Write)
      → IsUnusable m.config.device.device_id
      → io.decode (io.encode fresh) ≡ inr fresh
      → length fresh ≡ 16
      → let after = (get_or_create_device_id io m fresh w).0 in
        get_or_create_device_id io after later v ≡ (after, ok fresh)
  unfolding get_or_create_device_id
  get_or_create_device_id_again m fresh w later v missing law long =
      rw (id_found-create_id m fresh w m.config.device.device_id missing) (
        known (create_id io m fresh w).0 later v (io.encode fresh) fresh
          (create_id-stored m fresh w) law long)
