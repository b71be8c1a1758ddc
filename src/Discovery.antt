-- ===== src/Discovery.antt =====
-- internal/discovery/reporter.go: the URL of the API and what a report sends. Parsing and printing URLs
-- and the HTTP client are parameters; the ticker is not modelled.
use Prim.Native.Char.{code}
use shuosc_network_server_ba.Common.{
  ◌≡◌, refl, String, Bool, true, false, ◌&&◌, ◌||◌, Option, none, some, ◌==◌, str_eq, arith,
  if◌then◌else◌, Bool-cases, inl, inr, eq_iff,
}
use shuosc_network_server_ba.Common.Words.{concat, is_empty, trim_space}

-- url.URL, by the parts that APIURL reads and writes, and the rest.
pub record ApiUrl : Type 0 where
  pub host : String
  pub path : String
  pub raw_query : String
  pub fragment : String
  pub rest : String

-- strings.HasPrefix, strings.Contains, strings.HasSuffix and strings.TrimRight with one byte.
unfoldable pub has_prefix : String → String → Bool
has_prefix s String.[] = true
has_prefix String.[] (String.◌∷◌ d t) = false
has_prefix (String.◌∷◌ c s) (String.◌∷◌ d t) = (code c == code d) && has_prefix s t

unfoldable pub contains_text : String → String → Bool
contains_text String.[] t = is_empty t
contains_text (String.◌∷◌ c s) t = has_prefix (String.◌∷◌ c s) t || contains_text s t

unfoldable pub has_suffix : String → String → Bool
has_suffix String.[] t = is_empty t
has_suffix (String.◌∷◌ c s) t = str_eq (String.◌∷◌ c s) t || has_suffix s t

unfoldable pub trim_slashes : String → String
trim_slashes String.[] = ""
trim_slashes (String.◌∷◌ c s) =
    let rest = trim_slashes s in if (code c == 47) && is_empty rest then "" else String.◌∷◌ c rest

-- The path of the API below a path.
unfoldable pub api_path : String → String
api_path path =
    if is_empty (trim_slashes path)
    then "/api/v1"
    else if has_suffix (trim_slashes path) "/api/v1"
    then trim_slashes path
    else concat (trim_slashes path) "/api/v1"

unfoldable pub with_scheme_text : String → String
with_scheme_text addr = if contains_text addr "://" then addr else concat "https://" addr

unfoldable pub url_of : (ApiUrl → String) → Option ApiUrl → String
url_of print none = ""
url_of print (some u) =
    if is_empty u.host
    then ""
    else print (record u { raw_query = ""; fragment = ""; path = api_path u.path })

-- APIURL; "" is no URL.
unfoldable pub api_url : (String → Option ApiUrl) → (ApiUrl → String) → String → String
unfolding url_of
api_url parse print addr =
    if is_empty (trim_space addr)
    then ""
    else url_of print (parse (with_scheme_text (trim_space addr)))

-- reportPayload, with the token of the request.
pub record Report : Type 0 where
  pub api_url : String
  pub wg_endpoint : String
  pub authorization : String

-- The report of a round, which is skipped without a URL of the API.
unfoldable pub report : String → String → String → Option Report
report secret api_url wg_endpoint =
    if is_empty api_url
    then none
    else some (record {
      api_url = api_url;
      wg_endpoint = wg_endpoint;
      authorization = concat "Bearer " secret;
    })

or_true : (b : Bool) → (b || true) ≡ true
or_true true = refl
or_true false = refl

suffix-concat : (s t : String) → is_empty t ≡ false → has_suffix (concat s t) t ≡ true
unfolding has_suffix
suffix-concat String.[] String.[] e = ground arith
suffix-concat String.[] (String.◌∷◌ c t) e =
    rw ((eq_iff (String.◌∷◌ c t) (String.◌∷◌ c t)).1 refl) refl
suffix-concat (String.◌∷◌ c s) t e =
    rw (suffix-concat s t e) (or_true (str_eq (String.◌∷◌ c (concat s t)) t))

-- The path of every URL that is reported ends in /api/v1.
pub api_path-has_suffix : (path : String) → has_suffix (api_path path) "/api/v1" ≡ true
unfolding api_path
api_path-has_suffix path = elim (Bool-cases (is_empty (trim_slashes path))) [
  | inl empty ↦ rw empty (suffix-concat "" "/api/v1" refl)
  | inr full ↦ elim (Bool-cases (has_suffix (trim_slashes path) "/api/v1")) [
    | inl there ↦ rw (full, there) there
    | inr not_there ↦ rw (full, not_there) (suffix-concat (trim_slashes path) "/api/v1" refl)
  ]
]
