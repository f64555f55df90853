-- ===== src/Cluster/Actions/Exposed.antt =====
-- The credentials that are exposed to the operator as variables of its environment.
use grafana_operator.Common.{
  String, ◌==◌, eq_iff, ◌≡◌, refl, Bool, false, ◌||◌, List, [], ◌∷◌, Assoc, HasDistinctKeys,
  or_other, lookup, insert, lookup-insert, if◌then◌else◌, arith,
}
use grafana_operator.Cluster.Actions.{expose_var, expose_vars}

abbrev pub is_listed : String → List String → Bool
is_listed k [] = false
is_listed k (x ∷ l) = x == k || is_listed k l

lookup-expose_var :
    (x k : String) (values env : Assoc String)
    → HasDistinctKeys values
    → lookup k (expose_var x values env)
      ≡ (if x == k then or_other (lookup k values) (lookup k env) else lookup k env)
unfolding expose_var lookup
lookup-expose_var x k [] env d = ground arith
lookup-expose_var x k ((key, value) ∷ l) env d =
    let env' = if x == key then insert key value env else env in
    ground (
      arith,
      lookup-expose_var x k l env',
      d.0,
      lookup-insert key k value env,
      eq_iff x key,
      eq_iff x k,
      eq_iff key k,
    )

-- After the variables are exposed from data that holds no key twice, a variable that is listed has
-- the value of the data, or its old value if the data has none, and every other has its old value.
pub lookup-expose_vars :
    (vars : List String) (k : String) (values env : Assoc String)
    → HasDistinctKeys values
    → lookup k (expose_vars vars values env)
      ≡ (if is_listed k vars then or_other (lookup k values) (lookup k env) else lookup k env)
unfolding expose_vars
lookup-expose_vars [] k values env d = refl
lookup-expose_vars (x ∷ vars) k values env d = ground (
  arith,
  lookup-expose_vars vars k values (expose_var x values env),
  lookup-expose_var x k values env,
)
