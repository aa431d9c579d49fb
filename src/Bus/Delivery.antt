-- ===== src/Bus/Delivery.antt =====
-- Which handlers `Publish` calls, and in which order.
use brazier.Base.{
  ◌≡◌, refl, sym, ◌∙◌, ap, List, [], ◌∷◌, ◌++◌, map, if◌then◌else◌, Bool-cases, inl, inr,
}
use mathlib.Core.List.{append_assoc, append-nil}
use brazier.Bus
use brazier.Bus.{EventType, Event, Bus, same_type, add_handler, subscribe}

module _ {H : Type 0} where
  -- The bus after some calls of `Subscribe`, each with a handler and its types.
  unfoldable pub subscribe_all : List (H × List EventType) → Bus H → Bus H
  subscribe_all [] b = b
  subscribe_all ((h, types) ∷ subs) b = subscribe_all subs (subscribe h types b)

  -- The handler, once for each time that the type stands in the list.
  unfoldable pub times : H → EventType → List EventType → List H
  times h t [] = []
  times h t (u ∷ types) = if same_type u t then h ∷ times h t types else times h t types

  unfoldable pub subscribers : EventType → List (H × List EventType) → List H
  subscribers t [] = []
  subscribers t ((h, types) ∷ subs) = times h t types ++ subscribers t subs

  handlers-subscribe :
      (h : H) (types : List EventType) (t : EventType) (b : Bus H)
      → (subscribe h types b).handlers t ≡ b.handlers t ++ times h t types
  unfolding subscribe times
  handlers-subscribe h [] t b = sym (append-nil _)
  handlers-subscribe h (u ∷ types) t b = elim (Bool-cases (same_type u t)) [
    | inl same ↦
        handlers-subscribe h types t (add_handler h u b) ∙ rw same (append_assoc (b.handlers t) _ _)
    | inr other ↦ handlers-subscribe h types t (add_handler h u b) ∙ rw other refl
  ]

  handlers-subscribe_all :
      (subs : List (H × List EventType)) (t : EventType) (b : Bus H)
      → (subscribe_all subs b).handlers t ≡ b.handlers t ++ subscribers t subs
  unfolding subscribe_all subscribers
  handlers-subscribe_all [] t b = sym (append-nil _)
  handlers-subscribe_all ((h, types) ∷ subs) t b =
      handlers-subscribe_all subs t (subscribe h types b)
      ∙ rw (handlers-subscribe h types t b) (append_assoc (b.handlers t) _ _)

  -- `Publish` on a new bus with some subscriptions calls exactly the handlers that subscribed to
  -- the type of the event, in the order of the subscriptions, once for each time that a
  -- subscription names the type, and each with the event.
  pub publish-subscribe_all :
      (subs : List (H × List EventType)) (e : Event)
      → Bus.publish e (subscribe_all subs (Bus.new H)) ≡ map (λ h. (h, e)) (subscribers e.type subs)
  unfolding Bus.publish Bus.new
  publish-subscribe_all subs e =
      ap (map (λ h. (h, e))) (handlers-subscribe_all subs e.type (Bus.new H))
