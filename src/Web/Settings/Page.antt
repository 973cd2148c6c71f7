-- ===== src/Web/Settings/Page.antt =====
-- How the settings reach the page: `applyReaderSettingsToDocument`, the script that the page runs
-- before it is drawn (`getReaderSettingsBootstrapScript`), and their storage.
pub mod Same
use Prim.Native.String.{String}
use novelhub.Prelude.{Bool, Option, none, some, get_or, if◌then◌else◌}
use novelhub.Web.Json.{Json, null, object, Fields, get, JsonCodec}
use novelhub.Web.Storage.{BrowserStorage, SetResult}
use novelhub.Web.Settings.{
  ReaderSettings, ReaderSettingsCssVars, RootElement, default_reader_settings, font_size_text,
  line_height_text, theme_text, font_family_text, font_sizes, line_heights, themes, font_families,
  reader_font_sizes, reader_line_heights, reader_theme_colors, reader_font_families, included_or,
  boolean_or, is_record, is_version, settings_json, set_property, get_reader_settings_css_vars,
  serialize_reader_settings, parse_reader_settings,
}

-- `Object.entries(vars).forEach(…)`
abbrev pub set_vars : ReaderSettingsCssVars → RootElement → RootElement
set_vars vars root = set_property "--reader-font-family" vars.reader_font_family (
    set_property "--reader-line-height" vars.reader_line_height (
      set_property "--reader-font-size" vars.reader_font_size (
        set_property "--reader-fg" vars.reader_fg
          (set_property "--reader-bg" vars.reader_bg root))))

pub show : ReaderSettings → RootElement → RootElement
show settings root = set_vars (get_reader_settings_css_vars settings) (record root {
  reader_theme = some (theme_text settings.theme);
  reader_font_family = some (font_family_text settings.font_family);
})

-- The script's `settings`, from its `values`.
pub boot_settings : Fields → ReaderSettings
boot_settings values =
    let defaults = default_reader_settings in
    record {
      font_size = included_or font_size_text font_sizes (get "fontSize" values) defaults.font_size;
      line_height =
          included_or line_height_text line_heights (get "lineHeight" values) defaults.line_height;
      theme = included_or theme_text themes (get "theme" values) defaults.theme;
      font_family =
          included_or font_family_text font_families (get "fontFamily" values) defaults.font_family;
      auto_advance = boolean_or (get "autoAdvance" values) defaults.auto_advance;
    }

-- What the script does to the root element, of its `try` and of its `catch`.
pub boot_show : ReaderSettings → RootElement → RootElement
boot_show settings root =
    let theme = reader_theme_colors settings.theme in
    let named = record root {
      reader_theme = some (theme_text settings.theme);
      reader_font_family = some (font_family_text settings.font_family);
    } in
    let colored = set_property "--reader-fg" theme.fg (set_property "--reader-bg" theme.bg named) in
    set_property "--reader-font-family" (reader_font_families settings.font_family) (
      set_property "--reader-line-height" (reader_line_heights settings.line_height)
        (set_property "--reader-font-size" (reader_font_sizes settings.font_size) colored))

module _ {T : Type 0} (codec : JsonCodec T) where
  -- `JSON.parse(window.localStorage.getItem(key) || 'null')`
  abbrev pub parse_or_null : Option T → Option Json
  parse_or_null none = some null
  parse_or_null (some raw) = if codec.is_blank raw then some null else codec.parse raw

  -- `isRecord(parsed) && parsed.version === version && isRecord(parsed.settings) ? … : defaults`
  pub boot_values : Json → Fields
  boot_values parsed =
      let defaults = settings_json default_reader_settings in
      elim (is_record (some parsed)) [
        | none ↦ defaults
        | some payload ↦
            if is_version codec (get "version" payload)
            then get_or (is_record (get "settings" payload)) defaults
            else defaults
      ]

module _ {T S : Type 0} (codec : JsonCodec T) (storage : BrowserStorage T S) where
  -- `none` is that the storage throws.
  pub load_reader_settings : S → Option ReaderSettings
  load_reader_settings s = elim (storage.get_item s) [
    | none ↦ none
    | some raw ↦ some (parse_reader_settings codec raw)
  ]

  unfoldable pub save_reader_settings : ReaderSettings → S → SetResult × S
  save_reader_settings settings s = storage.set_item (serialize_reader_settings codec settings) s

  pub apply_reader_settings_to_document : RootElement → S → Option (ReaderSettings × RootElement)
  apply_reader_settings_to_document root s = elim (load_reader_settings s) [
    | none ↦ none
    | some settings ↦ some (settings, show settings root)
  ]

  pub run_bootstrap_script : RootElement → S → RootElement
  run_bootstrap_script root s = elim (storage.get_item s) [
    | none ↦ boot_show default_reader_settings root
    | some raw ↦ elim (parse_or_null codec raw) [
      | none ↦ boot_show default_reader_settings root
      | some parsed ↦ boot_show (boot_settings (boot_values codec parsed)) root
    ]
  ]
