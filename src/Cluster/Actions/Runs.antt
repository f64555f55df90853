-- ===== src/Cluster/Actions/Runs.antt =====
-- The runs of a list of actions, as a relation.
use mathlib.Core.Path.{subst}
use grafana_operator.Common.{◌≡◌, refl, ◌↔◌, Option, none, some, List, [], ◌∷◌}
use grafana_operator.Cluster.Actions.{Client, ClusterAction, ClusterWorld, run, run_all, run_rest}

module _ (client : Client) where
  -- `Runs client l s s' r`: the actions `l` run one after the other from `s`, each after one that
  -- did not fail, and end in `s'`, with `r` the error of the last one that ran.
  pub data Runs
      : List (ClusterAction client)
        → ClusterWorld client
        → ClusterWorld client
        → Option client.Error
        → Type 1 where
    finished : (s : ClusterWorld client) → Runs [] s s none
    continued :
        (action : ClusterAction client) (l : List (ClusterAction client))
        (s s1 s2 : ClusterWorld client) (r : Option client.Error)
        → run client action s ≡ (s1, none)
        → Runs l s1 s2 r
        → Runs (action ∷ l) s s2 r
    stopped :
        (action : ClusterAction client) (l : List (ClusterAction client))
        (s s1 : ClusterWorld client) (e : client.Error)
        → run client action s ≡ (s1, some e)
        → Runs (action ∷ l) s s1 (some e)

  Runs-run_all :
      {l : List (ClusterAction client)} {s s' : ClusterWorld client} {r : Option client.Error}
      → Runs l s s' r
      → run_all client l s ≡ (s', r)
  unfolding run_all
  Runs-run_all (finished s) = refl
  Runs-run_all (continued action l s s1 s2 r e more) = rw e (Runs-run_all more)
  Runs-run_all (stopped action l s s1 e h) = rw h refl

  run_rest-Runs :
      (action : ClusterAction client) (l : List (ClusterAction client)) (s : ClusterWorld client)
      (o : ClusterWorld client × Option client.Error)
      → run client action s ≡ o
      → ((t : ClusterWorld client) → Runs l t (run_all client l t).0 (run_all client l t).1)
      → Runs
          (action ∷ l)
          s
          (run_rest client o (run_all client l)).0
          (run_rest client o (run_all client l)).1
  run_rest-Runs action l s (s1, none) e more = continued action l s s1 _ _ e (more s1)
  run_rest-Runs action l s (s1, some err) e more = stopped action l s s1 err e

  run_all-Runs :
      (l : List (ClusterAction client)) (s : ClusterWorld client)
      → Runs l s (run_all client l s).0 (run_all client l s).1
  unfolding run_all
  run_all-Runs [] s = finished s
  run_all-Runs (action ∷ l) s =
      run_rest-Runs action l s (run client action s) refl (λ t. run_all-Runs l t)

  -- `RunAll` ends in the state `s'` with the result `r` exactly when the actions, run in their
  -- order up to the first one that fails, end in `s'` with `r`.
  pub run_all_iff :
      (l : List (ClusterAction client)) (s s' : ClusterWorld client) (r : Option client.Error)
      → Runs l s s' r ↔ (run_all client l s ≡ (s', r))
  run_all_iff l s s' r =
      (λ runs. Runs-run_all runs, λ e. subst (λ o. Runs l s o.0 o.1) e (run_all-Runs l s))
