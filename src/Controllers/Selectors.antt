-- ===== src/Controllers/Selectors.antt =====
-- Label selectors, of api/integreatly/v1alpha1/selectors.go. The functions for dashboards and for
-- notification channels are the same, of the labels of either.
use grafana_operator.Common.{String, Bool, false, ◌||◌, Option, none, some, List, [], ◌∷◌, Assoc}

-- A selector of k8s.io/apimachinery: whether it is empty, and which labels it matches.
pub record Selector : Type 0 where
  pub is_empty : Bool
  pub matches : Assoc String → Bool

module _ (S : Type 0) (label_selector_as_selector : S → Option Selector) where
  abbrev selects : Assoc String → Option Selector → Option Bool
  selects labels none = none
  selects labels (some selector) = some (selector.is_empty || selector.matches labels)

  -- `none` is the error of a selector that is not valid.
  unfoldable pub matches_selector : (labels : Assoc String) → S → Option Bool
  matches_selector labels s = selects labels (label_selector_as_selector s)

  abbrev or_result : Bool → Option Bool → Option Bool
  or_result result none = none
  or_result result (some match) = some (result || match)

  -- The rest of the loop, after the match of a selector.
  abbrev next : (Bool → Option Bool) → Option Bool → Option Bool
  next loop none = none
  next loop (some result) = loop result

  unfoldable pub matches_loop : (labels : Assoc String) → List S → (result : Bool) → Option Bool
  unfolding matches_selector
  matches_loop labels [] result = some result
  matches_loop labels (selector ∷ l) result =
      next (matches_loop labels l) (or_result result (matches_selector labels selector))

  unfoldable pub matches_selectors : (labels : Assoc String) → List S → Option Bool
  unfolding matches_loop
  matches_selectors labels l = matches_loop labels l false
