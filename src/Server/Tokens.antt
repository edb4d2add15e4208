-- ===== src/Server/Tokens.antt =====
-- pkg/utils/utils.go and pkg/server/server.go: what a token opens.
use ofcir.Prelude.{
  String, str_eq, ◌≡◌, Bool, true, false, List, [], ◌∷◌, Option, some, Error, ok, err,
  if◌then◌else◌, Bool-cases, inl, inr,
}
use ofcir.Prelude.Texts.{trim_space}
use ofcir.Server.Access.{unauthorized, text_of}
use ofcir.Server.Routes.{Route, OfcirApi, handle_route, serve}

-- the header names a token whose entry in the secret is not empty
abbrev pub is_known : (String → Option String) → List String → Bool
is_known tokens [] = false
is_known tokens (token ∷ more) = if str_eq (text_of (tokens token)) "" then false else true

abbrev pub pools_of : (String → Option String) → List String → String
pools_of tokens [] = ""
pools_of tokens (token ∷ more) = text_of (tokens token)

-- Where the secret of the tokens is read, a request passes exactly when the first value of its
-- header is a token with an entry that is not empty: then its handler runs with that entry, less
-- the white space around it. Otherwise the answer is 401, and nothing else is done.
pub serve_authorized :
    {C : Type 0} (api : OfcirApi C) (header : List String) (route : Route) (c c' : C)
    (tokens : String → Option String)
    → api.rest.get_secret "ofcir-system" "ofcir-tokens" c ≡ (ok tokens, c')
    → serve api header route c ≡ (
        if is_known tokens header
        then handle_route api route (some (trim_space (pools_of tokens header))) c'
        else (ok unauthorized, c'))
unfolding serve
serve_authorized api [] route c c' tokens h = rw h
serve_authorized api (token ∷ more) route c c' tokens h =
    elim (Bool-cases (str_eq (text_of (tokens token)) "")) [ inl e ↦ rw (h, e) | inr e ↦ rw (h, e) ]

-- Where the secret cannot be read, every request is answered 401, and nothing else is done.
serve_without_tokens :
    {C : Type 0} (api : OfcirApi C) (header : List String) (route : Route) (c c' : C) (e : Error)
    → api.rest.get_secret "ofcir-system" "ofcir-tokens" c ≡ (err e, c')
    → serve api header route c ≡ (ok unauthorized, c')
unfolding serve
serve_without_tokens api header route c c' e h = rw h
