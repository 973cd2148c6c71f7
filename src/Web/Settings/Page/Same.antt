-- ===== src/Web/Settings/Page/Same.antt =====
-- The script and the page agree, and settings that are saved are loaded.
use novelhub.Prelude.{
  Option, none, some, ◌≡◌, refl, ap, ◌∙◌, ==_iff, inl, inr, Bool-cases, Option-cases, get_or,
}
use novelhub.Web.Json.{
  Json, null, boolean, number, string, array, object, Fields, get, JsonCodec, IsDocumented,
}
use novelhub.Web.Storage.{BrowserStorage, IsStorage, stored}
use novelhub.Web.Settings.{
  ReaderFontSize, ReaderLineHeight, ReaderTheme, ReaderFontFamily, s, m, l, xl, compact, default,
  loose, white, sepia, dark, sans, serif, ReaderSettings, RootElement, default_reader_settings,
  sanitize_reader_settings, settings_json, parse_reader_settings, serialize_reader_settings,
  get_reader_settings_css_vars, is_version, payload_settings, settings_of, is_record, included_or,
  font_size_text, font_sizes, line_height_text, line_heights, theme_text, themes, font_family_text,
  font_families,
}
use novelhub.Web.Settings.Page.{
  show, boot_settings, boot_show, boot_values, run_bootstrap_script, load_reader_settings,
  save_reader_settings, apply_reader_settings_to_document, parse_or_null,
}

-- The root element after `applyReaderSettingsToDocument`; where it throws, with the defaults.
abbrev pub shown : Option (ReaderSettings × RootElement) → RootElement → RootElement
shown none root = show default_reader_settings root
shown (some (settings, root')) root = root'

boot_show-eq-show :
    (settings : ReaderSettings) (root : RootElement) → boot_show settings root ≡ show settings root
unfolding boot_show show get_reader_settings_css_vars
boot_show-eq-show settings root = refl

boot_settings-eq-sanitize :
    (values : Fields) → boot_settings values ≡ sanitize_reader_settings values
unfolding boot_settings sanitize_reader_settings
boot_settings-eq-sanitize values = refl

font_size_kept :
    (v : ReaderFontSize)
    → included_or font_size_text font_sizes (some (string (font_size_text v))) m ≡ v
font_size_kept s = refl
font_size_kept m = refl
font_size_kept l = refl
font_size_kept xl = refl

line_height_kept :
    (v : ReaderLineHeight)
    → included_or line_height_text line_heights (some (string (line_height_text v))) default ≡ v
line_height_kept compact = refl
line_height_kept default = refl
line_height_kept loose = refl

theme_kept :
    (v : ReaderTheme) → included_or theme_text themes (some (string (theme_text v))) white ≡ v
theme_kept white = refl
theme_kept sepia = refl
theme_kept dark = refl

font_family_kept :
    (v : ReaderFontFamily)
    → included_or font_family_text font_families (some (string (font_family_text v))) sans ≡ v
font_family_kept sans = refl
font_family_kept serif = refl

sanitize-settings_json :
    (settings : ReaderSettings) → sanitize_reader_settings (settings_json settings) ≡ settings
unfolding sanitize_reader_settings
sanitize-settings_json settings = λ i. record {
  font_size = font_size_kept settings.font_size i;
  line_height = line_height_kept settings.line_height i;
  theme = theme_kept settings.theme i;
  font_family = font_family_kept settings.font_family i;
  auto_advance = settings.auto_advance;
}

module _ {T : Type 0} (codec : JsonCodec T) where
  boot_settings-default :
      boot_settings (settings_json default_reader_settings) ≡ default_reader_settings
  boot_settings-default =
      boot_settings-eq-sanitize (settings_json default_reader_settings)
      ∙ sanitize-settings_json default_reader_settings

  boot_settings-get_or :
      (found : Option Fields)
      → boot_settings (get_or found (settings_json default_reader_settings)) ≡ settings_of found
  boot_settings-get_or none = boot_settings-default
  boot_settings-get_or (some values) = boot_settings-eq-sanitize values

  -- The script takes the values that the page sanitizes.
  boot_settings-boot_values :
      (parsed : Json)
      → boot_settings (boot_values codec parsed)
        ≡ settings_of (payload_settings codec (some parsed))
  unfolding boot_values
  boot_settings-boot_values null = boot_settings-default
  boot_settings-boot_values (boolean b) = boot_settings-default
  boot_settings-boot_values (number n) = boot_settings-default
  boot_settings-boot_values (string t) = boot_settings-default
  boot_settings-boot_values (array items) = boot_settings-default
  boot_settings-boot_values (object payload) =
      elim (Bool-cases (is_version codec (get "version" payload))) [
        | inl e ↦ rw e (boot_settings-get_or (is_record (get "settings" payload)))
        | inr e ↦ rw e boot_settings-default
      ]

  shows :
      (parsed : Json) (root : RootElement)
      → boot_show (boot_settings (boot_values codec parsed)) root
        ≡ show (settings_of (payload_settings codec (some parsed))) root
  shows parsed root =
      boot_show-eq-show (boot_settings (boot_values codec parsed)) root
      ∙ ap (λ settings. show settings root) (boot_settings-boot_values parsed)

  boot_show-parse :
      (raw : Option T) (root : RootElement)
      → elim (parse_or_null codec raw) as (λ _. RootElement) [
        | none ↦ boot_show default_reader_settings root
        | some parsed ↦ boot_show (boot_settings (boot_values codec parsed)) root
      ]
        ≡ show (parse_reader_settings codec raw) root
  unfolding parse_reader_settings
  boot_show-parse none root = shows null root
  boot_show-parse (some raw) root = elim (Bool-cases (codec.is_blank raw)) [
    | inl b ↦ rw b (shows null root)
    | inr b ↦ rw b (elim (Option-cases (codec.parse raw)) [
      | inl p ↦ rw p (boot_show-eq-show default_reader_settings root)
      | inr (parsed, p) ↦ rw p (shows parsed root)
    ])
  ]

module _ {T S : Type 0} (codec : JsonCodec T) (storage : BrowserStorage T S) where
  -- The script that runs before the page is drawn leaves the root element as
  -- `applyReaderSettingsToDocument` leaves it, whatever the storage holds: no settings, a text that
  -- is no JSON, another version, or unknown values. Where the storage throws, it shows the defaults.
  pub run_bootstrap_script-apply_reader_settings_to_document :
      (root : RootElement) (state : S)
      → run_bootstrap_script codec storage root state
        ≡ shown (apply_reader_settings_to_document codec storage root state) root
  unfolding run_bootstrap_script apply_reader_settings_to_document load_reader_settings
  run_bootstrap_script-apply_reader_settings_to_document root state =
      elim (Option-cases (storage.get_item state)) [
        | inl e ↦
            rw (e, run_bootstrap_script, apply_reader_settings_to_document, load_reader_settings)
              (boot_show-eq-show default_reader_settings root)
        | inr (raw, e) ↦
            rw (e, run_bootstrap_script, apply_reader_settings_to_document, load_reader_settings)
              (boot_show-parse codec raw root)
      ]

  -- Settings that the storage accepts are loaded as they were saved.
  pub save_reader_settings-load_reader_settings :
      (settings : ReaderSettings) (state state' : S)
      → IsDocumented codec
      → IsStorage storage
      → save_reader_settings codec storage settings state ≡ (stored, state')
      → load_reader_settings codec storage state' ≡ some settings
  unfolding save_reader_settings load_reader_settings parse_reader_settings
      serialize_reader_settings
  save_reader_settings-load_reader_settings settings state state' doc law saved =
      rw
        (
          law.get_item-set_item _ state state' saved,
          load_reader_settings,
          parse_reader_settings,
          doc.stringify_not_blank _,
          doc.parse-stringify _ refl,
        )
        (rw ((==_iff codec.one codec.one).1 refl) (ap some (sanitize-settings_json settings)))
