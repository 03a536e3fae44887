-- ===== src/Sidecar/Blank.antt =====
-- metadata/sidecar.py: a chain whose carriers are missing or are no mappings gives no field.
use legal_system.Prelude.{String, false, none, List, [], ◌∷◌, ◌≡◌, refl, ◌∙◌, ap, ◌⊎◌, inl, inr}
use legal_system.Prelude.Dict.{Dict, lookup}
use legal_system.Data.{Value}
use legal_system.Sidecar.{
  Layer, absent, not_mapping, named, resolve_chain, chain_layers, merge_layer,
}
use legal_system.Sidecar.Ordinary.{is_exclusion_field, overlay, resolve_layers-overlay}

overlay-blank :
    (layer : String → Layer) (sources : List String) (d : Dict Value)
    → ((s : String) → (layer s ≡ absent) ⊎ (layer s ≡ not_mapping))
    → overlay d (named layer sources) ≡ d
unfolding named merge_layer
overlay-blank layer [] d h = refl
overlay-blank layer (s ∷ ss) d h = elim (h s) [
  | inl e ↦ rw e (overlay-blank layer ss d h)
  | inr e ↦ rw e (overlay-blank layer ss d h)
]

pub lookup-resolve_chain-blank :
    (layer : String → Layer) (rel k : String)
    → ((s : String) → (layer s ≡ absent) ⊎ (layer s ≡ not_mapping))
    → is_exclusion_field k ≡ false
    → lookup k (resolve_chain layer rel).fields ≡ none
unfolding resolve_chain lookup
lookup-resolve_chain-blank layer rel k h n =
    resolve_layers-overlay (named layer (chain_layers rel)) k n
    ∙ ap (lookup k) (overlay-blank layer (chain_layers rel) [] h)
