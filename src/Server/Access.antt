-- ===== src/Server/Access.antt =====
-- pkg/utils/utils.go and `AuthRequired` of pkg/server/server.go: tokens and the pools they open.
use ofcir.Prelude.{
  String, str_eq, Bool, true, false, List, [], ◌∷◌, Option, none, some, any, Exec, Outcome, ok, err,
  panic, if◌then◌else◌,
}
use ofcir.Prelude.Texts.{split, trim_space}
use ofcir.Server.{msg, Response, status_unauthorized}
use ofcir.Server.Clientset.{Rest}

-- `contains`, of both packages
abbrev pub contains : List String → String → Bool
contains elems v = any (λ s. str_eq v s) elems

-- `CanUsePool`, on the value of "validpools" in the request's context
unfoldable pub can_use_pool : Option String → String → Bool
can_use_pool none pool = false
can_use_pool (some v) pool = if str_eq v "*" then true else contains (split b',' v) pool

abbrev pub unauthorized : Response
unauthorized = record { status = status_unauthorized; body = msg "401 Unauthorized" [] }

-- `AuthRequired` aborts with a response, or sets "validpools" and lets the request pass.
pub data Access : Type 0 where
  denied : Response → Access
  granted : String → Access

abbrev pub text_of : Option String → String
text_of none = ""
text_of (some s) = s

-- the pools of a token; a missing or empty entry is none
unfoldable pub check_token : (String → Option String) → List String → Access
check_token tokens [] = denied unauthorized
check_token tokens (token ∷ more) =
    let pools = text_of (tokens token) in
    if str_eq pools "" then denied unauthorized else granted (trim_space pools)

abbrev check_tokens : {C : Type 0} → Outcome (String → Option String) → List String → Exec C Access
check_tokens (ok tokens) header s = (ok (check_token tokens header), s)
check_tokens (err e) header s = (ok (denied unauthorized), s)
check_tokens panic header s = (panic, s)

-- `AuthRequired`; `header` is the request's `X-Ofcirtoken`
unfoldable pub auth_required : {C : Type 0} → Rest C → List String → Exec C Access
unfolding check_token
auth_required rest header s =
    let (r, s') = rest.get_secret "ofcir-system" "ofcir-tokens" s in check_tokens r header s'
