-- ===== src/Server/Order.antt =====
-- What the clients of server/live_data_collector.hpp take from the queue.
use ggml_viz.Base.{
  ℕ, zero, suc, ◌-◌, ◌≤◌, ◌≡◌, sym, ap, ap₂, subst, ◌∙◌, List, [], ◌∷◌, ◌++◌, arith, append-nil,
  append_assoc, length, length-append, length-drop, take, drop, take-append-drop, drop-cons,
  drop-nil, take-nil, take-cons, take-eq-nil,
}
use ggml_viz.Event.{Event}
use ggml_viz.Server.Stream.{limit_queue, handle_new_events, next_batch_from, next_batch}

drop-none : (n : ℕ) (q : List Event) → n ≡ 0 → drop n q ≡ q
drop-none n q h = ap (λ k. drop k q) h

-- The newest 10000 events are kept.
pub limit_queue-drop : (q : List Event) → limit_queue q ≡ drop (length q - 10000) q
unfolding limit_queue
limit_queue-drop [] = sym (drop-nil (0 - 10000))
limit_queue-drop (e ∷ q) = ground (
  arith,
  limit_queue-drop q
      ∙ ap (λ k. drop k q)
          (let s : length q - 10000 ≡ suc (length q) - 10000 - 1 = omega arith in s),
  drop-cons (suc (length q) - 10000) e q,
  drop-none (suc (length q) - 10000) (e ∷ q),
)

pub next_batch_from-take :
    (size : ℕ) (q : List Event) → next_batch_from size q ≡ (take (10 - size) q, drop (10 - size) q)
unfolding next_batch_from
next_batch_from-take size [] =
    ap₂ (λ a b. (a, b)) (sym (take-nil (10 - size))) (sym (drop-nil (10 - size)))
next_batch_from-take size (e ∷ q) = ground (
  arith,
  next_batch_from-take (suc size) q
      ∙ ap (λ k. (take k q, drop k q)) (let s : 10 - suc size ≡ 10 - size - 1 = omega arith in s),
  take-cons (10 - size) e q,
  drop-cons (10 - size) e q,
  take-eq-nil (10 - size) (e ∷ q),
  drop-none (10 - size) (e ∷ q),
)

-- `xs` is `ys` with some entries left out.
pub data Sublist {ℓ} {A : Type ℓ} : List A → List A → Type ℓ where
  done : Sublist [] []
  keep : (x : A) {xs ys : List A} → Sublist xs ys → Sublist (x ∷ xs) (x ∷ ys)
  skip : (y : A) {xs ys : List A} → Sublist xs ys → Sublist xs (y ∷ ys)

module _ {ℓ} {A : Type ℓ} where
  refl-Sublist : (xs : List A) → Sublist xs xs
  refl-Sublist [] = done
  refl-Sublist (x ∷ xs) = keep x (refl-Sublist xs)

  drop-Sublist : (n : ℕ) (xs ys zs : List A) → Sublist zs (drop n xs ++ ys) → Sublist zs (xs ++ ys)
  drop-Sublist zero xs ys zs s = s
  drop-Sublist (suc n) [] ys zs s = s
  drop-Sublist (suc n) (x ∷ xs) ys zs s = skip x (drop-Sublist n xs ys zs s)

  prefix-Sublist : (xs ys zs : List A) → Sublist ys zs → Sublist (xs ++ ys) (xs ++ zs)
  prefix-Sublist [] ys zs s = s
  prefix-Sublist (x ∷ xs) ys zs s = keep x (prefix-Sublist xs ys zs s)

transport_Sublist :
    {xs xs1 ys ys1 : List Event} → xs ≡ xs1 → ys ≡ ys1 → Sublist xs ys → Sublist xs1 ys1
transport_Sublist {xs1 = xs1} {ys = ys} p q s =
    subst (Sublist xs1) q (subst (λ l. Sublist l ys) p s)

-- The collector hands over events, or the thread of some client takes a batch: both hold the lock of
-- the queue. Sending the batch comes later and without the lock (Server.Clients).
pub data Step : Type 0 where
  arrives : List Event → Step
  takes : Step

-- All that is taken, in the order of taking, and the queue at the end.
abbrev pub serve : List Step → List Event → List Event × List Event
serve [] q = ([], q)
serve (arrives events ∷ steps) q = serve steps (handle_new_events events q)
serve (takes ∷ steps) q =
    let (batch, q1) = next_batch q in let (taken, q2) = serve steps q1 in (batch ++ taken, q2)

abbrev pub arrived : List Step → List Event
arrived [] = []
arrived (arrives events ∷ steps) = events ++ arrived steps
arrived (takes ∷ steps) = arrived steps

-- What the clients together take from the queue, in the order of taking, followed by what is still
-- queued, is what was queued and what arrived with some events left out: none is taken twice, made up,
-- or taken before an older one that is taken at all. In what order different clients' batches are
-- sent, and whether they are, is another matter.
pub serve-arrived :
    (steps : List Step) (q : List Event)
    → Sublist ((serve steps q).0 ++ (serve steps q).1) (q ++ arrived steps)
unfolding handle_new_events next_batch
serve-arrived [] q = subst (Sublist q) (sym (append-nil q)) (refl-Sublist q)
serve-arrived (arrives events ∷ steps) q =
    subst (Sublist _) (append_assoc q events (arrived steps)) (
      drop-Sublist (length (q ++ events) - 10000) (q ++ events) (arrived steps) _ (
        subst
          (λ q1.
            Sublist
              ((serve steps (limit_queue (q ++ events))).0
                ++ (serve steps (limit_queue (q ++ events))).1)
              (q1 ++ arrived steps))
          (limit_queue-drop (q ++ events)) (serve-arrived steps (limit_queue (q ++ events)))))
serve-arrived (takes ∷ steps) q =
    let (taken, q2) = serve steps (drop 10 q) in
    subst (λ b. Sublist ((b.0 ++ (serve steps b.1).0) ++ (serve steps b.1).1) (q ++ arrived steps))
      (sym (next_batch_from-take 0 q))
      (transport_Sublist (sym (append_assoc (take 10 q) taken q2))
        (sym (append_assoc (take 10 q) (drop 10 q) (arrived steps))
          ∙ ap (λ l. l ++ arrived steps) (take-append-drop 10 q))
        (prefix-Sublist (take 10 q) _ _ (serve-arrived steps (drop 10 q))))

-- As long as no more than 10000 events are queued or arrive at all, every event is taken or still queued.
pub serve-arrived_all :
    (steps : List Step) (q : List Event)
    → length (q ++ arrived steps) ≤ 10000
    → (serve steps q).0 ++ (serve steps q).1 ≡ q ++ arrived steps
unfolding handle_new_events next_batch
serve-arrived_all [] q h = sym (append-nil q)
serve-arrived_all (arrives events ∷ steps) q h =
    let whole : length ((q ++ events) ++ arrived steps) ≤ 10000 =
      subst (λ l. length l ≤ 10000) (sym (append_assoc q events (arrived steps))) h in
    let kept : limit_queue (q ++ events) ≡ q ++ events =
      limit_queue-drop (q ++ events)
      ∙ drop-none (length (q ++ events) - 10000) (q ++ events)
          (omega (arith, length-append (q ++ events) (arrived steps))) in
    ap (λ q1. (serve steps q1).0 ++ (serve steps q1).1) kept
    ∙ serve-arrived_all steps (q ++ events) whole
    ∙ append_assoc q events (arrived steps)
serve-arrived_all (takes ∷ steps) q h =
    let (taken, q2) = serve steps (drop 10 q) in
    ap (λ b. (b.0 ++ (serve steps b.1).0) ++ (serve steps b.1).1) (next_batch_from-take 0 q)
    ∙ append_assoc (take 10 q) taken q2
    ∙ ap (λ l. take 10 q ++ l)
        (serve-arrived_all steps (drop 10 q) (
          omega (
            arith,
            length-append q (arrived steps),
            length-append (drop 10 q) (arrived steps),
            length-drop 10 q,
          )))
    ∙ sym (append_assoc (take 10 q) (drop 10 q) (arrived steps))
    ∙ ap (λ l. l ++ arrived steps) (take-append-drop 10 q)
