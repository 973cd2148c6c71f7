-- ===== src/Web/Settings.antt =====
-- apps/web/src/lib/reader-settings.ts: the settings of the reader, kept in the browser.
pub mod Page
use Prim.Native.String.{String}
use text.Mathlib.Text.{◌==◌ as str_eq}
use novelhub.Prelude.{
  Bool, true, false, Option, none, some, List, [], ◌∷◌, ◌==◌, get_or, if◌then◌else◌,
}
use novelhub.Prelude.Int.{ℤ, pos}
use novelhub.Web.Json.{
  Json, null, boolean, number, string, array, object, Number, finite, infinite, Fields, end, field,
  get, JsonCodec,
}

pub data ReaderFontSize : Type 0 where
  s m l xl : ReaderFontSize

pub data ReaderLineHeight : Type 0 where
  compact default loose : ReaderLineHeight

pub data ReaderTheme : Type 0 where
  white sepia dark : ReaderTheme

pub data ReaderFontFamily : Type 0 where
  sans serif : ReaderFontFamily

pub record ReaderSettings : Type 0 where
  pub font_size : ReaderFontSize
  pub line_height : ReaderLineHeight
  pub theme : ReaderTheme
  pub font_family : ReaderFontFamily
  pub auto_advance : Bool

abbrev pub default_reader_settings : ReaderSettings
default_reader_settings = record {
  font_size = m;
  line_height = default;
  theme = white;
  font_family = sans;
  auto_advance = false;
}

-- The texts that the union types consist of.
abbrev pub font_size_text : ReaderFontSize → String
font_size_text s = "s"
font_size_text m = "m"
font_size_text l = "l"
font_size_text xl = "xl"

abbrev pub line_height_text : ReaderLineHeight → String
line_height_text compact = "compact"
line_height_text default = "default"
line_height_text loose = "loose"

abbrev pub theme_text : ReaderTheme → String
theme_text white = "white"
theme_text sepia = "sepia"
theme_text dark = "dark"

abbrev pub font_family_text : ReaderFontFamily → String
font_family_text sans = "sans"
font_family_text serif = "serif"

abbrev pub font_sizes : List ReaderFontSize
font_sizes = s ∷ m ∷ l ∷ xl ∷ []

abbrev pub line_heights : List ReaderLineHeight
line_heights = compact ∷ default ∷ loose ∷ []

abbrev pub themes : List ReaderTheme
themes = white ∷ sepia ∷ dark ∷ []

abbrev pub font_families : List ReaderFontFamily
font_families = sans ∷ serif ∷ []

abbrev pub reader_font_sizes : ReaderFontSize → String
reader_font_sizes s = "15px"
reader_font_sizes m = "17px"
reader_font_sizes l = "19px"
reader_font_sizes xl = "22px"

abbrev pub reader_line_heights : ReaderLineHeight → String
reader_line_heights compact = "1.5"
reader_line_heights default = "1.7"
reader_line_heights loose = "1.9"

pub record ThemeColors : Type 0 where
  pub bg : String
  pub fg : String

abbrev pub reader_theme_colors : ReaderTheme → ThemeColors
reader_theme_colors white = record { bg = "#FFFFFF"; fg = "#171717" }
reader_theme_colors sepia = record { bg = "#F5EFE0"; fg = "#211A13" }
reader_theme_colors dark = record { bg = "#1A1A1A"; fg = "#E8E8E8" }

abbrev pub reader_font_families : ReaderFontFamily → String
reader_font_families sans = "var(--font-body), ui-sans-serif, system-ui, sans-serif"
reader_font_families serif = "ui-serif, Georgia, Cambria, \"Times New Roman\", Times, serif"

module _ {A : Type 0} where
  -- The value among `values` that a text names.
  abbrev pub value_named : (A → String) → List A → String → Option A
  value_named text_of [] t = none
  value_named text_of (v ∷ values) t =
      if str_eq (text_of v) t then some v else value_named text_of values t

  -- `includes(values, value) ? value : fallback`
  abbrev pub included_or : (A → String) → List A → Option Json → A → A
  included_or text_of values (some (string t)) fallback =
      get_or (value_named text_of values t) fallback
  included_or text_of values _ fallback = fallback

-- `typeof value === 'boolean' ? value : fallback`
abbrev pub boolean_or : Option Json → Bool → Bool
boolean_or (some (boolean b)) fallback = b
boolean_or _ fallback = fallback

abbrev pub is_record : Option Json → Option Fields
is_record (some (object fields)) = some fields
is_record _ = none

unfoldable pub sanitize_reader_settings : Fields → ReaderSettings
sanitize_reader_settings value = record {
  font_size =
      included_or font_size_text font_sizes (get "fontSize" value)
        default_reader_settings.font_size;
  line_height =
      included_or line_height_text line_heights (get "lineHeight" value)
        default_reader_settings.line_height;
  theme = included_or theme_text themes (get "theme" value) default_reader_settings.theme;
  font_family =
      included_or font_family_text font_families (get "fontFamily" value)
        default_reader_settings.font_family;
  auto_advance = boolean_or (get "autoAdvance" value) default_reader_settings.auto_advance;
}

-- The settings of a payload, and the defaults where there is none.
abbrev pub settings_of : Option Fields → ReaderSettings
settings_of none = default_reader_settings
settings_of (some settings) = sanitize_reader_settings settings

abbrev pub settings_json : ReaderSettings → Fields
settings_json settings = field "fontSize" (string (font_size_text settings.font_size)) (
    field "lineHeight" (string (line_height_text settings.line_height)) (
      field "theme" (string (theme_text settings.theme)) (
        field "fontFamily" (string (font_family_text settings.font_family))
          (field "autoAdvance" (boolean settings.auto_advance) end))))

-- What the settings are shown on: the data attributes and the inline style of the root element.
pub record RootElement : Type 0 where
  pub reader_theme : Option String
  pub reader_font_family : Option String
  pub style : List (String × String)

-- `root.style.setProperty(key, value)`
abbrev pub put_property : String → String → List (String × String) → List (String × String)
put_property key value [] = (key, value) ∷ []
put_property key value ((k, v) ∷ style) =
    if str_eq k key then (key, value) ∷ style else (k, v) ∷ put_property key value style

abbrev pub set_property : String → String → RootElement → RootElement
set_property key value root = record root { style = put_property key value root.style }

pub record ReaderSettingsCssVars : Type 0 where
  pub reader_bg : String
  pub reader_fg : String
  pub reader_font_size : String
  pub reader_line_height : String
  pub reader_font_family : String

pub get_reader_settings_css_vars : ReaderSettings → ReaderSettingsCssVars
get_reader_settings_css_vars settings =
    let theme = reader_theme_colors settings.theme in
    record {
      reader_bg = theme.bg;
      reader_fg = theme.fg;
      reader_font_size = reader_font_sizes settings.font_size;
      reader_line_height = reader_line_heights settings.line_height;
      reader_font_family = reader_font_families settings.font_family;
    }

module _ {T : Type 0} (codec : JsonCodec T) where
  -- `version === READER_SETTINGS_VERSION`
  abbrev pub is_version : Option Json → Bool
  is_version (some (number (finite (pos n)))) = n == codec.one
  is_version _ = false

  abbrev pub version_json : Json
  version_json = number (finite (pos codec.one))

  unfoldable pub serialize_reader_settings : ReaderSettings → T
  serialize_reader_settings settings = codec.stringify (
      object
        (field "version" version_json (field "settings" (object (settings_json settings)) end)))

  -- `!isRecord(parsed) || parsed.version !== … || !isRecord(parsed.settings)`, and if none holds
  -- the settings
  abbrev pub payload_settings : Option Json → Option Fields
  payload_settings parsed = elim (is_record parsed) [
    | none ↦ none
    | some payload ↦
        if is_version (get "version" payload) then is_record (get "settings" payload) else none
  ]

  unfoldable pub parse_reader_settings : Option T → ReaderSettings
  parse_reader_settings none = default_reader_settings
  parse_reader_settings (some raw) =
      if codec.is_blank raw then default_reader_settings else elim (codec.parse raw) [
        | none ↦ default_reader_settings
        | some parsed ↦ settings_of (payload_settings (some parsed))
      ]
