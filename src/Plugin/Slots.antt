-- ===== src/Plugin/Slots.antt =====
-- internal/hivemind/service/plugin/slots.go: which plugin may take a slot. An error is a value.
use echoryn.Prelude.{
  Text, codes, same, is_empty, Assoc, lookup, Bool, not, ◌||◌, [], ◌∷◌, Option, none, some,
  if◌then◌else◌,
}
use echoryn.Plugin.Types.{Definition}

abbrev pub SlotConfig : Type 0
SlotConfig = Assoc Text

abbrev pub slot_defaults : Assoc Text
slot_defaults = (codes "memory", codes "memory-core") ∷ []

pub data SlotError : Type 0 where
  disabled : Text → SlotError
  assigned_to : Text → Text → Text → SlotError
  occupied_by : Text → Text → Text → SlotError

-- The value of a Go map, which is empty for a missing key.
abbrev pub value_of : Option Text → Text
value_of none = []
value_of (some t) = t

-- A kind without a slot.
abbrev pub is_free : Text → Bool
is_free kind = is_empty kind || same kind (codes "general")

unfoldable pub desired_of : SlotConfig → Text → Text
unfolding lookup
desired_of config kind =
    let chosen = value_of (lookup kind config) in
    if is_empty chosen then value_of (lookup kind slot_defaults) else chosen

-- ResolveSlot; `none` is that the plugin may be loaded.
unfoldable pub resolve_slot : Definition → Assoc Text → SlotConfig → Option SlotError
unfolding desired_of lookup same
resolve_slot def active config =
    let desired = desired_of config def.kind in
    if is_free def.kind
    then none
    else if same desired (codes "none")
    then some (disabled def.kind)
    else if not (same desired def.id)
    then some (assigned_to def.kind desired def.id)
    else elim (lookup def.kind active) [
      | none ↦ none
      | some occupant ↦
          if not (same occupant def.id) then some (occupied_by def.kind occupant def.id) else none
    ]
