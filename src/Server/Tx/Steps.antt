-- ===== src/Server/Tx/Steps.antt =====
-- Rules for code with no transaction whose one statement stands among steps of its own: steps that
-- read, waits that can be cancelled, and what is computed of the value in the end.
use yandex_go_final_diploma.Prelude.{◌≡◌, refl, sym, subst, fun_ext, ap, ◌∙◌, true}
use yandex_go_final_diploma.Exec.{Result, ok, err, pure, continue, ◌>>=◌, ◌>>◌}
use yandex_go_final_diploma.Server.Errors.{Err, is_fault}
use yandex_go_final_diploma.Server.Store.{
  Db, World, Event, fine, lost_connection, lost_reading, aborted, broken, cancelled, Action, Query,
  draw,
}
use yandex_go_final_diploma.Server.Tx.{after_delay}
use yandex_go_final_diploma.Server.Tx.Refines.{Refined, Refines}
use yandex_go_final_diploma.Server.Tx.Calm.{bind-Calm}
use yandex_go_final_diploma.Server.Tx.Runs.{Serves, Serves-as}

module _ {A : Type 0} where
  pub Serves-pure : (a : A) → Serves (pure a) (pure a)
  Serves-pure a = record {
    refines = record { at = λ w. Refined.ran refl refl };
    calm = record { at = λ d. refl };
  }

module _ {A B : Type 0} where
  told-Refined :
      (g : Result Err A → Result Err B)
      → ((e : Err) → is_fault e ≡ true → g (err e) ≡ err e)
      → (d : Db) (spec : Result Err A × Db) (r : Result Err A × World) → Refined d spec r
      → Refined d (g spec.0, spec.1) (g r.0, r.1)
  told-Refined g keeps d spec r (Refined.faulted e f p k) =
      Refined.faulted e f (ap g p ∙ keeps e f) k
  told-Refined g keeps d spec r (Refined.ran p k) = Refined.ran (ap g p) k

  -- What is told of the outcome, where faults are told as they are.
  pub Serves-told :
      (g : Result Err A → Result Err B) (m : Action A) (q : Query A)
      → ((e : Err) → is_fault e ≡ true → g (err e) ≡ err e)
      → Serves m q
      → Serves (λ w. (g (m w).0, (m w).1)) (λ d. (g (q d).0, (q d).1))
  Serves-told g m q keeps h = record {
    refines = record { at = λ w. told-Refined g keeps w.store (q w.store) (m w) (h.refines.at w) };
    calm = record { at = λ d. rw h.calm.at refl };
  }

  look_next :
      (f : A → Action B) (g : A → Query B)
      → ((a : A) → Serves (f a) (g a))
      → (d : Db) (s : Result Err A) (d' : Db) (w : World) → w.store ≡ d'
      → d' ≡ d
      → Refined d (continue s g d') (continue s f w)
  look_next f g k d (ok a) d' w p same = rw (← same, ← p) ((k a).refines.at w)
  look_next f g k d (err e) d' w p same = Refined.ran refl p

  look-Refined :
      (f : A → Action B) (g : A → Query B)
      → ((a : A) → Serves (f a) (g a))
      → (d : Db) (s : Result Err A × Db) (r : Result Err A × World) → s.1 ≡ d
      → Refined d s r
      → Refined d (continue s.0 g s.1) (continue r.0 f r.1)
  look-Refined f g k d s r same (Refined.faulted e x p st) = rw p (Refined.faulted e x refl st)
  look-Refined f g k d s r same (Refined.ran p st) = rw p (look_next f g k d s.0 s.1 r.1 st same)

  -- A first step that only reads.
  pub Serves-look :
      (m : Action A) (q : Query A) (f : A → Action B) (g : A → Query B)
      → ((d : Db) → (q d).1 ≡ d)
      → Serves m q
      → ((a : A) → Serves (f a) (g a))
      → Serves (m >>= f) (q >>= g)
  Serves-look m q f g reads h k = record {
    refines = record {
      at = λ w. look-Refined f g k w.store (q w.store) (m w) (reads w.store) (h.refines.at w);
    };
    calm = bind-Calm m q f g h.calm (λ a. (k a).calm);
  }

  abbrev ending : (A → Result Err B) → Result Err A → Result Err B
  ending r o = elim o [ ok a ↦ r a | err e ↦ err e ]

  ends :
      {S : Type 0} (k : A → S → Result Err B × S) (r : A → Result Err B)
      → ((a : A) (s : S) → k a s ≡ (r a, s))
      → (o : Result Err A) (s : S) → (ending r o, s) ≡ continue o k s
  ends k r h (ok a) s = sym (h a s)
  ends k r h (err e) s = refl

  -- What follows the statement only computes.
  pub Serves-end :
      (m : Action A) (q : Query A) (f : A → Action B) (g : A → Query B) (r : A → Result Err B)
      → ((a : A) (w : World) → f a w ≡ (r a, w))
      → ((a : A) (d : Db) → g a d ≡ (r a, d))
      → Serves m q
      → Serves (m >>= f) (q >>= g)
  Serves-end m q f g r hf hg h =
      subst (λ n. Serves n (q >>= g)) (fun_ext (λ w. ends f r hf (m w).0 (m w).1))
        (Serves-as (Serves-told (ending r) m q (λ e _. refl) h) (λ d. ends g r hg (q d).0 (q d).1))

module _ {A : Type 0} where
  waited :
      (m : Action A) (q : Query A)
      → Refines m q
      → (e : Event) (w : World)
      → Refined w.store (q w.store) ((after_delay (pure tt) e >>= λ _. m) w)
  unfolding after_delay is_fault
  waited m q h cancelled w = Refined.faulted _ refl refl refl
  waited m q h fine w = h.at w
  waited m q h lost_connection w = h.at w
  waited m q h lost_reading w = h.at w
  waited m q h aborted w = h.at w
  waited m q h broken w = h.at w

  -- A wait in front that the request may not outlive.
  pub Serves-wait :
      (wait : Action (Unit {0})) (m : Action A) (q : Query A)
      → ((w : World) → wait w ≡ (let (e, w') = draw w in after_delay (pure tt) e w'))
      → Serves m q
      → Serves (wait >> m) q
  unfolding draw
  Serves-wait wait m q is h = record {
    refines = record { at = λ w. rw is (waited m q h.refines (draw w).0 (draw w).1) };
    calm = record { at = λ d. unfold after_delay in rw is (h.calm.at d) };
  }
