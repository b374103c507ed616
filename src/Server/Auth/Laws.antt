-- ===== src/Server/Auth/Laws.antt =====
-- lib/endb_server/src/lib.rs: whom basic authentication lets in.
use text.Mathlib.Text.{◌==◌ as str_eq}
use Prim.Native.Char.{code}
use Prim.Native.String.{◌++◌}
use Prim.Native.String.append
use mathlib.Core.Option.{some-injective}
use endb.Prelude.{
  String, Bool, true, false, not, ◌&&◌, Option, none, some, ◌≡◌, refl, ap, sym, subst, arith, ◌==◌,
  Bool-cases, inl, inr, and-true,
}
use endb.Server.Http.{Request, Libraries, Bytes}
use endb.Server.Params.Laws.{str_eq→eq, str_eq_refl}
use endb.Server.Auth.{make_basic_auth_header, auth_header, sent_auth, option_eq, unauthorized}

-- whether a text has no `%`
unfoldable pub is_plain : String → Bool
is_plain String.[] = true
is_plain (String.◌∷◌ c s) = not (code c == 37) && is_plain s

-- Base64 has no `%`, and percent decoding leaves a text without one as it is.
pub record AuthLaws (lib : Libraries) : Type 0 where
  pub base64_plain : (s : String) → is_plain (lib.base64_encode s) ≡ true
  pub decode_plain : (s : String) → is_plain s ≡ true → lib.percent_decode s ≡ some s

same_option : (o : Option String) (a : String) → not (option_eq (some a) o) ≡ false → o ≡ some a
same_option none a h = ground (arith, h)
same_option (some s) a h = elim (Bool-cases (str_eq a s)) [
  | inl e ↦ ap some (sym (str_eq→eq a s e))
  | inr e ↦ absurd (ground (arith, h, e))
]

-- With credentials configured, a request is let in just where its header, decoded, is them.
pub authorized_iff :
    (lib : Libraries) (auth : String) (req : Request)
    → (unauthorized lib (some auth) req ≡ false → sent_auth lib req ≡ some auth)
      × (sent_auth lib req ≡ some auth → unauthorized lib (some auth) req ≡ false)
unfolding unauthorized
authorized_iff lib auth req =
    (λ h. same_option (sent_auth lib req) auth h, λ e. simp (e, str_eq_refl auth) refl)

and-left : {a : Bool} → a ≡ true → (a && true) ≡ true
and-left {a} h = ground (arith, h)

is_plain-append : (s t : String) → is_plain s ≡ true → is_plain t ≡ true → is_plain (s ++ t) ≡ true
unfolding is_plain
is_plain-append String.[] t h h' = rw (append.nil t) h'
is_plain-append (String.◌∷◌ c s) t h h' =
    let (h₁, h₂) = and-true _ _ h in
    rw (append.cons c s t) (simp (is_plain-append s t h₂ h') (and-left h₁))

-- The header that is made of a user name and a password lets its sender in, whatever they are, if
-- Base64 has no percent sign and percent decoding leaves a text without one as it is.
pub credentials_accepted :
    (lib : Libraries) (username password auth : String) (req : Request) (value : Bytes)
    → AuthLaws lib
    → make_basic_auth_header lib (some username) (some password) ≡ some auth
    → req.headers (auth_header req) ≡ some value
    → lib.to_str value ≡ some auth
    → unauthorized lib (make_basic_auth_header lib (some username) (some password)) req ≡ false
unfolding make_basic_auth_header sent_auth is_plain
credentials_accepted lib username password auth req value laws made sent text =
    let encoded = lib.base64_encode (username ++ ":" ++ password) in
    let plain = is_plain-append "Basic " encoded refl (laws.base64_plain _) in
    let same : "Basic " ++ encoded ≡ auth = some-injective _ _ made in
    let found : sent_auth lib req ≡ some auth =
      rw (sent, text) (laws.decode_plain auth (subst (λ t. is_plain t ≡ true) same plain)) in
    rw made ((authorized_iff lib auth req).1 found)
