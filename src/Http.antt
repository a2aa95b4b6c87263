-- ===== src/Http.antt =====
-- The part of net/http's requests that the gateway reads and writes. Header names are the canonical
-- ones, so a map from names to single values stands for http.Header: the code uses Get and Set only.
use gateway_pro.Prelude.{if◌then◌else◌, Text, String, ◌≡◌, refl, Bool, List, [], ◌∷◌, arith}
use text.Mathlib.Text.{◌==◌ as str_eq}
use text.Mathlib.TextEquality.{eq_iff}
use text.Mathlib.TextPositions.{eq_refl}

abbrev pub Header : Type 0
Header = List (String × Text)

-- Header.Get: the empty text for a missing name.
unfoldable pub get : Header → String → Text
get [] name = []
get ((n, v) ∷ hs) name = if str_eq n name then v else get hs name

-- Header.Set
unfoldable pub set : Header → String → Text → Header
set [] name v = (name, v) ∷ []
set ((n, w) ∷ hs) name v = if str_eq n name then (name, v) ∷ hs else (n, w) ∷ set hs name v

pub record Request : Type 0 where
  pub method : Text
  pub path : Text
  pub host : Text
  pub remote_addr : Text
  pub tls : Bool
  pub header : Header

pub get-set :
    (hs : Header) (name other : String) (v : Text)
    → get (set hs name v) other ≡ (if str_eq name other then v else get hs other)
unfolding get set
get-set [] name other v = refl
get-set ((n, w) ∷ hs) name other v =
    ground (arith, eq_iff n name, eq_iff n other, eq_iff name other, get-set hs name other v)

pub get-set_self : (hs : Header) (name : String) (v : Text) → get (set hs name v) name ≡ v
get-set_self hs name v = simp (get-set, eq_refl)
