-- ===== src/Router/RateLimit/Maps.antt =====
-- The maps of limiters: what asking one key, writing its limiter back and sweeping leave.
use agenttier.Prelude.{
  ℕ, ◌≤◌, String, false, some, List, [], ◌∷◌, str_eq, ◌≡◌, refl, arith, eq_iff, inl, inr,
  Bool-cases,
}
use agenttier.Prelude.Int.{ℤ}
use agenttier.Webhook.Subscription.{lookup}
use agenttier.Router.RateLimit.{Limiters, LimiterEntry, fresh, get_or_create, write_back}

module _ (L : Limiters) (per_sec : L.Rate) (burst : ℤ) (now : ℕ) (key : String) where
  open L use {Limiter}

  -- Another key has the entry that it had.
  pub lookup-get_or_create_other :
      (j : String) (m : List (String × LimiterEntry L))
      → str_eq key j ≡ false
      → lookup j (get_or_create L m key per_sec burst now).1 ≡ lookup j m
  unfolding get_or_create lookup
  lookup-get_or_create_other j [] other = ground arith
  lookup-get_or_create_other j ((k, e) ∷ m) other =
      ground (arith, lookup-get_or_create_other j m other, eq_iff k key, eq_iff key j, eq_iff k j)

  pub lookup-write_back_other :
      (j : String) (l : Limiter) (m : List (String × LimiterEntry L))
      → str_eq key j ≡ false
      → lookup j (write_back L key l m) ≡ lookup j m
  unfolding write_back lookup
  lookup-write_back_other j l [] other = refl
  lookup-write_back_other j l ((k, e) ∷ m) other =
      ground (arith, lookup-write_back_other j l m other, eq_iff k key, eq_iff key j, eq_iff k j)

  -- The key has the limiter that was written back, and the time of the call.
  pub lookup-write_back_self :
      (l : Limiter) (m : List (String × LimiterEntry L))
      → lookup key (write_back L key l (get_or_create L m key per_sec burst now).1)
        ≡ some (record { limiter = l; last_seen = now })
  unfolding write_back lookup get_or_create
  lookup-write_back_self l [] = ground (arith, eq_iff key key)
  lookup-write_back_self l ((k, e) ∷ m) = ground (arith, lookup-write_back_self l m, eq_iff k key)

  -- What a limiter that was written back is, when the key is asked again at the same time.
  pub get_or_create-write_back :
      (l : Limiter) (m : List (String × LimiterEntry L))
      → get_or_create L
          (write_back L key l (get_or_create L m key per_sec burst now).1)
          key
          per_sec
          burst
          now
        ≡ (l, write_back L key l (get_or_create L m key per_sec burst now).1)
  unfolding write_back get_or_create
  get_or_create-write_back l [] = ground (arith, eq_iff key key)
  get_or_create-write_back l ((k, e) ∷ m) =
      ground (arith, get_or_create-write_back l m, eq_iff k key)

  pub write_back-write_back :
      (l l' : Limiter) (m : List (String × LimiterEntry L))
      → write_back L key l' (write_back L key l m) ≡ write_back L key l' m
  unfolding write_back
  write_back-write_back l l' [] = refl
  write_back-write_back l l' ((k, e) ∷ m) = ground (arith, write_back-write_back l l' m)

module _ (L : Limiters) where
  -- A sweep leaves an entry that was seen at the cutoff or later where it is found.
  pub lookup-fresh :
      (cutoff : ℕ) (j : String) (m : List (String × LimiterEntry L)) (e : LimiterEntry L)
      → lookup j m ≡ some e
      → cutoff ≤ e.last_seen
      → lookup j (fresh L cutoff m) ≡ some e
  unfolding fresh lookup
  lookup-fresh cutoff j [] e h le = cc
  lookup-fresh cutoff j ((k, d) ∷ m) e h le = elim (Bool-cases (str_eq k j)) [
    | inl same ↦ ground arith
    | inr other ↦ ground (arith, lookup-fresh cutoff j m e)
  ]
