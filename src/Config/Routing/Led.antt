-- ===== src/Config/Routing/Led.antt =====
-- Where a rule of src/config.rs leads.
use zc.Prelude.{ℕ, ◌≡◌, Option, none, some, List, length, get_elem?}
use zc.Config.Groups.{resolve_proxy}
use zc.Config.Rules.{Rule}
use zc.Config.Routing.{Router}

module _ {N : Type 0} (router : Router N) where
  -- The proxy that the rule's node stands for under the selections.
  abbrev pub leaf_of : Rule N → Option ℕ
  leaf_of rule = resolve_proxy (length router.kinds) router.edges router.selections rule.proxy

  -- Rule number `k` leads to the proxy.
  abbrev pub Leads : List (Rule N) → ℕ → ℕ → Type 0
  Leads rules k leaf =
      (rule : Rule N) × (get_elem? rules k ≡ some rule) × (leaf_of rule ≡ some leaf)

  -- Rule number `k` leads nowhere.
  abbrev pub LeadsNowhere : List (Rule N) → ℕ → Type 0
  LeadsNowhere rules k = (rule : Rule N) × (get_elem? rules k ≡ some rule) × (leaf_of rule ≡ none)
