-- ===== src/Session/Url/Forms.antt =====
-- The form of a server's URL: of a scheme, an authority and a path the authority alone counts.
use libpanaudia_core.Prelude.{
  Bool, List, [], arith, bytes_eq, not, refl, some, true, ℕ, ◌&&◌, ◌++◌, ◌==◌, ◌∷◌, ◌≡◌,
}
use libpanaudia_core.Session.Url.{after_scheme, or_else, before, parse_authority, parse_url}

-- The byte is not in the text.
unfoldable pub lacks : ℕ → List ℕ → Bool
lacks b [] = true
lacks b (c ∷ cs) = not (c == b) && lacks b cs

after_scheme-lem :
    (scheme rest : List ℕ)
    → lacks b':' scheme ≡ true
    → after_scheme (scheme ++ (b':' ∷ b'/' ∷ b'/' ∷ rest)) ≡ some rest
unfolding after_scheme lacks bytes_eq
after_scheme-lem [] rest h = refl
after_scheme-lem (c ∷ cs) rest h = let later = after_scheme-lem cs rest in ground arith

before-lem :
    (authority path : List ℕ)
    → lacks b'/' authority ≡ true
    → before b'/' (authority ++ (b'/' ∷ path)) ≡ authority
unfolding before lacks
before-lem [] path h = refl
before-lem (c ∷ cs) path h = let later = before-lem cs path in ground arith

-- Of a URL with a scheme and a path, host and port are those of the authority between them, if the
-- scheme has no colon and the authority no slash.
pub parse_url-authority :
    (scheme authority path : List ℕ)
    → lacks b':' scheme ≡ true
    → lacks b'/' authority ≡ true
    → parse_url (scheme ++ (b':' ∷ b'/' ∷ b'/' ∷ (authority ++ (b'/' ∷ path))))
      ≡ parse_authority authority
unfolding parse_url or_else
parse_url-authority scheme authority path s a =
    rw (after_scheme-lem scheme (authority ++ (b'/' ∷ path)) s, before-lem authority path a) refl
