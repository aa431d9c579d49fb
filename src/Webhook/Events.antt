-- ===== src/Webhook/Events.antt =====
-- What an event says of the payload of a push.
use brazier.Base.{
  Text, text, ◌∙◌, ap, ◌≡◌, ◌≢◌, refl, sym, Bool, true, false, [], ◌++◌, Bool-cases, inl, inr,
  has_prefix, trim_prefix, cut_prefix, arith,
}
use brazier.Base.Strings.Affixes.{has_prefix_iff, trim_prefix-append}
use brazier.Webhook.{TriggerEvent, PushPayload, push_event, event_of, heads, tags}

-- The branch and the tag that a ref names.
pub data Names : (ref branch tag : Text) → Type 0 where
  a_branch : (name : Text) → Names (text "refs/heads/" ++ name) name []
  a_tag : (name : Text) → Names (text "refs/tags/" ++ name) [] name
  neither :
      (ref : Text)
      → ((name : Text) → ref ≢ text "refs/heads/" ++ name)
      → ((name : Text) → ref ≢ text "refs/tags/" ++ name)
      → Names ref [] []

-- The event says what the payload says.
pub record IsEventOf (p : PushPayload) (e : TriggerEvent) : Type 0 where
  pub project : e.project ≡ p.full_name
  pub event : e.event ≡ text "push"
  pub sha : e.sha ≡ p.after
  pub names : Names p.ref e.branch e.tag

Names-push_event : (p : PushPayload) → Names p.ref (push_event p).branch (push_event p).tag
unfolding push_event
Names-push_event p = elim (Bool-cases (has_prefix p.ref heads)) [
  | inl branch ↦
      let (name, e) = (has_prefix_iff p.ref heads).0 branch in
      let trimmed = ap (λ s. trim_prefix s heads) e ∙ trim_prefix-append heads name in
      rw (push_event, branch, trimmed, e) (a_branch name)
  | inr other ↦ elim (Bool-cases (has_prefix p.ref tags)) [
    | inl tag ↦
        let (name, e) = (has_prefix_iff p.ref tags).0 tag in
        let trimmed = ap (λ s. trim_prefix s tags) e ∙ trim_prefix-append tags name in
        rw (push_event, other, tag, trimmed, e) (a_tag name)
    | inr bare ↦
        rw (push_event, other, bare)
          (neither p.ref (λ name e. cc (other, (has_prefix_iff p.ref heads).1 (name, e)))
            (λ name e. cc (bare, (has_prefix_iff p.ref tags).1 (name, e))))
  ]
]

not_true : (b : Bool) → ¬ (b ≡ true) → b ≡ false
not_true b h = ground (arith, h)

tags_apart : (name : Text) → has_prefix (text "refs/tags/" ++ name) heads ≡ false
unfolding has_prefix cut_prefix text
tags_apart name = refl

pub push_event-Names :
    (p : PushPayload) (ref branch tag : Text)
    → p.ref ≡ ref
    → Names ref branch tag
    → push_event p ≡ event_of p branch tag
unfolding push_event
push_event-Names p _ _ _ e (a_branch name) =
    let marked = (has_prefix_iff p.ref heads).1 (name, e) in
    let trimmed = ap (λ s. trim_prefix s heads) e ∙ trim_prefix-append heads name in
    rw (push_event, marked, trimmed) refl
push_event-Names p _ _ _ e (a_tag name) =
    let other = ap (λ s. has_prefix s heads) e ∙ tags_apart name in
    let marked = (has_prefix_iff p.ref tags).1 (name, e) in
    let trimmed = ap (λ s. trim_prefix s tags) e ∙ trim_prefix-append tags name in
    rw (push_event, other, marked, trimmed) refl
push_event-Names p _ _ _ e (neither ref no_branch no_tag) =
    let other =
      not_true (has_prefix p.ref heads)
        (λ h. let (name, e') = (has_prefix_iff p.ref heads).0 h in no_branch name (sym e ∙ e')) in
    let bare =
      not_true (has_prefix p.ref tags)
        (λ h. let (name, e') = (has_prefix_iff p.ref tags).0 h in no_tag name (sym e ∙ e')) in
    rw (push_event, other, bare) refl

pub event_eq : (e : TriggerEvent) (p : PushPayload) → IsEventOf p e → e ≡ event_of p e.branch e.tag
event_eq e p h = λ i. record {
  project = h.project i;
  branch = e.branch;
  tag = e.tag;
  event = h.event i;
  sha = h.sha i;
}

push_event-fields :
    (p : PushPayload)
    → ((push_event p).project ≡ p.full_name)
      × ((push_event p).event ≡ text "push")
      × ((push_event p).sha ≡ p.after)
unfolding push_event
push_event-fields p = elim (Bool-cases (has_prefix p.ref heads)) [
  | inl branch ↦ rw (push_event, branch) (refl, refl, refl)
  | inr other ↦ elim (Bool-cases (has_prefix p.ref tags)) [
    | inl tag ↦ rw (push_event, other, tag) (refl, refl, refl)
    | inr bare ↦ rw (push_event, other, bare) (refl, refl, refl)
  ]
]

pub push_event-IsEventOf : (p : PushPayload) → IsEventOf p (push_event p)
push_event-IsEventOf p = record {
  project = (push_event-fields p).0;
  event = (push_event-fields p).1;
  sha = (push_event-fields p).2;
  names = Names-push_event p;
}
