-- ===== src/Webhook/Deliverer/Runs.antt =====
-- RunOnce of pkg/controller/webhook_delivery/deliverer.go: who is sent what, and when the cursor moves.
use agenttier.Prelude.{
  String, Bool, true, false, Option, none, some, List, [], ◌∷◌, map, ◌≡◌, refl, ap, subst, ◌⊎◌, inl,
  inr, In, is_empty,
}
use agenttier.Webhook.Subscription.{Subscription}
use agenttier.Webhook.Events.{Event, CursorState, NewEvents, list_new_events}
use agenttier.Webhook.Deliverer.{
  recipients, PassEnv, Pass, dispatch_all, save, finish_pass, pass_on, run_once,
}
use agenttier.Webhook.Deliverer.Passes.{Delivers, recipients-Delivers}

In-dispatch_all :
    (env : PassEnv) (subs : List Subscription) (secrets : List (String × String)) (evt : Event)
    (ids : List String) (events : List Event)
    → In (evt, ids) (dispatch_all env subs secrets events)
    → In evt events × (ids ≡ recipients env.access subs secrets evt)
In-dispatch_all env subs secrets evt ids [] m = absurd m
In-dispatch_all env subs secrets evt ids (e ∷ events) (inl same) =
    let first : evt ≡ e = ap (λ p. p.0) same in (inl first, cc)
In-dispatch_all env subs secrets evt ids (e ∷ events) (inr later) =
    let (here, at) = In-dispatch_all env subs secrets evt ids events later in (inr here, at)

events_of :
    (env : PassEnv) (subs : List Subscription) (secrets : List (String × String))
    (events : List Event)
    → map (λ (d : Event × List String). d.0) (dispatch_all env subs secrets events) ≡ events
events_of env subs secrets [] = refl
events_of env subs secrets (e ∷ events) = ap (λ es. e ∷ es) (events_of env subs secrets events)

-- What a pass makes of the events that it lists, when it hands one of them to a subscription.
abbrev pub Dispatches : PassEnv → NewEvents → Event → String → Type 0
Dispatches env new evt id =
    (new.bootstrap ≡ false)
    × In evt new.events
    × (subs : List Subscription) × (secrets : List (String × String)) × (env.subscriptions
        ≡ some (subs, secrets))
    × Delivers env subs secrets evt id

finish_pass-Dispatches :
    (first no_events : Bool) (held : Option (List Subscription × List (String × String)))
    (env : PassEnv) (new : NewEvents) (evt : Event) (ids : List String) (id : String)
    → new.bootstrap ≡ first
    → env.subscriptions ≡ held
    → In (evt, ids) (finish_pass first no_events held env new).dispatched
    → In id ids
    → Dispatches env new evt id
finish_pass-Dispatches true no_events held env new evt ids id b e m n = absurd m
finish_pass-Dispatches false true held env new evt ids id b e m n = absurd m
finish_pass-Dispatches false false none env new evt ids id b e m n = absurd m
finish_pass-Dispatches false false (some (subs, secrets)) env new evt ids id b e m n =
    let (here, at) = In-dispatch_all env subs secrets evt ids new.events m in
    (
      b,
      here,
      subs,
      secrets,
      e,
      recipients-Delivers env subs secrets evt id (subst (λ xs. In id xs) at n),
    )

-- The cursor and the events that a pass reads.
abbrev pub Reads : (List Event → List Event) → PassEnv → (NewEvents → Type 0) → Type 0
Reads sort_slice env P =
    (state : CursorState) × (items : List Event) × (env.loaded ≡ some state)
    × (env.listed ≡ some items)
    × P (list_new_events sort_slice env.now state items)

-- A pass sends an event to the subscription of an id only if the cursor and the events could be read,
-- it is not the first pass, the event is one of the new ones past the cursor, the subscriptions could
-- be read, and a subscription of that id is entitled to it: enabled, subscribed to the type that the
-- event's reason stands for, with filters that fit, an owner who is an admin or the creator of the
-- sandbox or one of those it is shared with, and a secret that is not empty.
pub run_once-Entitled :
    (sort_slice : List Event → List Event) (env : PassEnv) (evt : Event) (ids : List String)
    (id : String)
    → In (evt, ids) (run_once sort_slice env).dispatched
    → In id ids
    → Reads sort_slice env (λ new. Dispatches env new evt id)
unfolding run_once
run_once-Entitled sort_slice env evt ids id m n = go env.loaded env.listed refl refl m
  where
    go :
        (loaded : Option CursorState) (listed : Option (List Event))
        → env.loaded ≡ loaded
        → env.listed ≡ listed
        → In (evt, ids) (pass_on sort_slice env loaded listed).dispatched
        → Reads sort_slice env (λ new. Dispatches env new evt id)
    go none listed l k m = absurd m
    go (some state) none l k m = absurd m
    go (some state) (some items) l k m =
        let new = list_new_events sort_slice env.now state items in
        (
          state,
          items,
          l,
          k,
          finish_pass-Dispatches new.bootstrap (is_empty new.events) env.subscriptions env new evt
              ids id refl refl m n,
        )

-- What a pass that saves its cursor has done with the new events: nothing on the first pass, and
-- otherwise all of them were dispatched, in order.
abbrev pub Saves : PassEnv → CursorState → List Event → NewEvents → Type 0
Saves env c dispatched new =
    (c ≡ new.next)
    × (((new.bootstrap ≡ true) × (dispatched ≡ []))
        ⊎ ((new.bootstrap ≡ false) × (dispatched ≡ new.events)))

abbrev pub events_in : Pass → List Event
events_in pass = map (λ (d : Event × List String). d.0) pass.dispatched

save-some : (saves : Bool) (c d : CursorState) → save saves d ≡ some c → c ≡ d
save-some true c d e = cc
save-some false c d e = cc

finish_pass-Saves :
    (first no_events : Bool) (held : Option (List Subscription × List (String × String)))
    (env : PassEnv) (new : NewEvents) (c : CursorState)
    → new.bootstrap ≡ first
    → (finish_pass first no_events held env new).saved ≡ some c
    → Saves env c (events_in (finish_pass first no_events held env new)) new
finish_pass-Saves true no_events held env new c b e =
    (save-some env.saves c new.next e, inl (b, refl))
finish_pass-Saves false true held env new c b e = cc
finish_pass-Saves false false none env new c b e = cc
finish_pass-Saves false false (some (subs, secrets)) env new c b e =
    (save-some env.saves c new.next e, inr (b, events_of env subs secrets new.events))

-- A pass saves a cursor only after it has read the old one and the events; the one it saves is the next
-- one for them, and unless the pass is the first it has dispatched every new event, in their order.
pub run_once-Saves :
    (sort_slice : List Event → List Event) (env : PassEnv) (c : CursorState)
    → (run_once sort_slice env).saved ≡ some c
    → Reads sort_slice env (Saves env c (events_in (run_once sort_slice env)))
unfolding run_once
run_once-Saves sort_slice env c e = go env.loaded env.listed refl refl e
  where
    go :
        (loaded : Option CursorState) (listed : Option (List Event))
        → env.loaded ≡ loaded
        → env.listed ≡ listed
        → (pass_on sort_slice env loaded listed).saved ≡ some c
        → Reads sort_slice env (Saves env c (events_in (pass_on sort_slice env loaded listed)))
    go none listed l k e = cc
    go (some state) none l k e = cc
    go (some state) (some items) l k e =
        let new = list_new_events sort_slice env.now state items in
        (
          state,
          items,
          l,
          k,
          finish_pass-Saves new.bootstrap (is_empty new.events) env.subscriptions env new c refl e,
        )
