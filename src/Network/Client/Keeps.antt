-- ===== src/Network/Client/Keeps.antt =====
-- Reasoning about code that may throw: a relation between the object before and after, which holds
-- however the code ends, is proved along the code.
use mod_i_found_your_sword.Prelude.{Bool, true, false, List, [], ◌∷◌, if◌then◌else◌}
use mod_i_found_your_sword.Network.Client.Json.{JsonLib, Except, ok, throws}
use mod_i_found_your_sword.Network.Client.State.{
  Client, M, ◌>>=◌, ◌>>◌, proceed, lift, modify, for_each,
}

pub record Preorder {J : JsonLib} (R : Client J → Client J → Type 0) : Type 0 where
  pub refl_at : (c : Client J) → R c c
  pub trans_at : (c d e : Client J) → R c d → R d e → R c e

pub record Keeps {J : JsonLib} (R : Client J → Client J → Type 0) {A : Type 0} (m : M J A)
    : Type 0 where
  pub run : (c : Client J) → R c (m c).1

module _ {J : JsonLib} {R : Client J → Client J → Type 0} ⦃p : Preorder R⦄ where
  bind_result :
      {A B : Type 0} {c : Client J} (f : A → M J B)
      → ((a : A) → Keeps R (f a))
      → (r : Except A) (d : Client J) → R c d
      → R c (proceed f (r, d)).1
  bind_result f k (ok a) d g = p.trans_at _ _ _ g ((k a).run d)
  bind_result f k (throws e) d g = g

  pub Keeps-bind :
      {A B : Type 0} {m : M J A} {f : A → M J B}
      → Keeps R m
      → ((a : A) → Keeps R (f a))
      → Keeps R (m >>= f)
  unfolding ◌>>=◌
  Keeps-bind {m = m} {f = f} h k = record { run = λ c. bind_result f k (m c).0 (m c).1 (h.run c) }

  pub Keeps-then :
      {B : Type 0} {m : M J (Unit {0})} {n : M J B} → Keeps R m → Keeps R n → Keeps R (m >> n)
  unfolding ◌>>◌
  Keeps-then h k = Keeps-bind h (λ _. k)

  pub Keeps-lift : {A : Type 0} (r : Except A) → Keeps R (lift r)
  unfolding lift
  Keeps-lift r = record { run = λ c. p.refl_at c }

  pub Keeps-modify : (f : Client J → Client J) → ((c : Client J) → R c (f c)) → Keeps R (modify f)
  unfolding modify
  Keeps-modify f h = record { run = h }

  pub Keeps-if :
      {A : Type 0} (b : Bool) {m n : M J A} → Keeps R m → Keeps R n → Keeps R (if b then m else n)
  Keeps-if true h k = h
  Keeps-if false h k = k

  pub Keeps-for_each :
      {A : Type 0} {body : A → M J (Unit {0})} (xs : List A)
      → ((x : A) → Keeps R (body x))
      → Keeps R (for_each xs body)
  unfolding for_each
  Keeps-for_each [] h = record { run = p.refl_at }
  Keeps-for_each {body = body} (x ∷ xs) h = record {
    run = λ c.
        bind_result {B = Unit {0}} (λ _. for_each xs body) (λ _. Keeps-for_each xs h) (body x c).0
          (body x c).1 ((h x).run c);
  }
