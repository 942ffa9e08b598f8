-- ===== src/Std/Env.antt =====
-- `std::env`: the process environment as an association list, first entry first.
use tere.Prelude.{
  ℕ, ◌≡◌, true, arith, Option, none, some, List, [], ◌∷◌, if◌then◌else◌, bytes_eq, bytes_eq_iff,
  arith, Outcome, ok, err,
}
use tere.Std.Utf8.{is_utf8}

-- Keys and values are bytes: `OsString` on UNIX.
abbrev pub OsString : Type 0
OsString = List ℕ

abbrev pub Env : Type 0
Env = List (OsString × OsString)

-- `std::env::VarError`
pub data VarError : Type 0 where
  not_present : VarError
  not_unicode : OsString → VarError

unfoldable pub var_os : Env → OsString → Option OsString
var_os [] k = none
var_os ((j, v) ∷ env) k = if bytes_eq j k then some v else var_os env k

unfoldable pub var : Env → OsString → Outcome VarError OsString
unfolding is_utf8
var env k = elim (var_os env k) [
  | none ↦ err not_present
  | some v ↦ if is_utf8 v then ok v else err (not_unicode v)
]

unfoldable pub remove_var : OsString → Env → Env
remove_var k [] = []
remove_var k ((j, v) ∷ env) =
    let rest = remove_var k env in if bytes_eq j k then rest else (j, v) ∷ rest

unfoldable pub set_var : OsString → OsString → Env → Env
unfolding remove_var
set_var k v env = (k, v) ∷ remove_var k env

pub var_os-remove_var :
    (k j : OsString) (env : Env)
    → var_os (remove_var k env) j ≡ (if bytes_eq k j then none else var_os env j)
unfolding var_os remove_var
var_os-remove_var k j [] = ground arith
var_os-remove_var k j ((i, v) ∷ env) =
    ground (arith, var_os-remove_var k j env, bytes_eq_iff i k, bytes_eq_iff i j, bytes_eq_iff k j)

pub var-present :
    (e : Env) (k v : OsString) → var_os e k ≡ some v → is_utf8 v ≡ true → var e k ≡ ok v
unfolding var
var-present e k v h u = ground arith

pub var-missing : (e : Env) (k : OsString) → var_os e k ≡ none → var e k ≡ err not_present
unfolding var
var-missing e k h = ground arith

pub var-ok : (e : Env) (k v : OsString) → var e k ≡ ok v → var_os e k ≡ some v
unfolding var
var-ok e k v h = ground arith

pub var_os-set_var :
    (k v j : OsString) (env : Env)
    → var_os (set_var k v env) j ≡ (if bytes_eq k j then some v else var_os env j)
unfolding set_var var_os
var_os-set_var k v j env = ground (arith, var_os-remove_var k j env)
