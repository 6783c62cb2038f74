-- ===== src/DockerCleanup/Cleaned.antt =====
-- Which images `cleanup_images` of docker_cleanup.py touches, cancelled or not.
use public_endorsement_servi.Base.{
  append_assoc, append-nil, ℕ, zero, suc, ◌≤◌, ◌≡◌, refl, sym, ap, ◌∙◌, ◌⊎◌, inl, inr, Bool, true,
  false, Option, none, some, List, [], ◌∷◌, ◌++◌, arith, Text, take, drop, length, flatten,
  take-append-drop, length-drop, ok,
}
use public_endorsement_servi.Base.Integers.{pos}
use public_endorsement_servi.DockerCleanup.Batches.{
  Event, ask, wait_for, Removal, tag_of_removal, remove_image, end_of_wait, unless_set,
  unless_ended, after_batch, cleanup_images_batch, cleanup_batches, batches_of, batches,
  cleanup_images,
}

-- The images of the removals, in order.
unfoldable pub handled : List Removal → List Text
unfolding tag_of_removal
handled [] = []
handled (r ∷ rs) = tag_of_removal r ∷ handled rs

pub handled-append : (rs ss : List Removal) → handled (rs ++ ss) ≡ handled rs ++ handled ss
unfolding handled
handled-append [] ss = refl
handled-append (r ∷ rs) ss = ap (λ ts. tag_of_removal r ∷ ts) (handled-append rs ss)

-- All the tags were handled, or a first part of them was and the event is set now.
unfoldable pub IsStopped : List Text → List Removal × Event → Type 0
IsStopped tags (rs, e) =
    (handled rs ≡ tags) ⊎ ((rest : List Text) × (handled rs ++ rest ≡ tags) × (e ≡ some zero))

wait_for-set :
    (polls : ℕ) (e : Event) → (wait_for polls e).0 ≡ true → (wait_for polls e).1 ≡ some zero
unfolding wait_for ask
wait_for-set zero e h = cc
wait_for-set (suc polls) none h = wait_for-set polls none h
wait_for-set (suc polls) (some zero) h = refl
wait_for-set (suc polls) (some (suc n)) h = wait_for-set polls (some n) h

end_of_wait-set :
    (tag : Text) (r : Bool × Event)
    → (r.0 ≡ true → r.1 ≡ some zero)
    → (end_of_wait tag r).0.0 ≡ true
    → (end_of_wait tag r).1 ≡ some zero
unfolding end_of_wait
end_of_wait-set tag (true, later) set h = set refl
end_of_wait-set tag (false, later) set h = cc

-- A removal that ends its batch was cancelled.
pub remove_image-set :
    (tag : Text) (run : Option ℕ) (e : Event)
    → (remove_image tag run e).0.0 ≡ true
    → (remove_image tag run e).1 ≡ some zero
unfolding remove_image
remove_image-set tag none e h = cc
remove_image-set tag (some polls) e h =
    end_of_wait-set tag (wait_for polls e) (wait_for-set polls e) h

end_of_wait-tag : (tag : Text) (r : Bool × Event) → tag_of_removal (end_of_wait tag r).0.1 ≡ tag
unfolding end_of_wait tag_of_removal
end_of_wait-tag tag (true, later) = refl
end_of_wait-tag tag (false, later) = refl

pub remove_image-tag :
    (tag : Text) (run : Option ℕ) (e : Event) → tag_of_removal (remove_image tag run e).0.1 ≡ tag
unfolding remove_image tag_of_removal
remove_image-tag tag none e = refl
remove_image-tag tag (some polls) e = end_of_wait-tag tag (wait_for polls e)

unless_ended-IsStopped :
    (r : (Bool × Removal) × Event) (go : Event → List Removal × Event) (tag : Text)
    (tags : List Text)
    → tag_of_removal r.0.1 ≡ tag
    → (r.0.0 ≡ true → r.1 ≡ some zero)
    → ((e : Event) → IsStopped tags (go e))
    → IsStopped (tag ∷ tags) (unless_ended r go)
unfolding unless_ended IsStopped handled
unless_ended-IsStopped ((true, removal), after) go tag tags same set rest =
    inr (tags, ap (λ t. t ∷ tags) same, set refl)
unless_ended-IsStopped ((false, removal), after) go tag tags same set rest = elim (rest after) [
  | inl e ↦ inl (rw (same, e) refl)
  | inr (left, e, stop) ↦ inr (left, rw (same, e) refl, stop)
]

unless_set-IsStopped :
    (e : Event) (go : Event → List Removal × Event) (tags : List Text)
    → ((later : Event) → IsStopped tags (go later))
    → IsStopped tags (unless_set (ask e) go)
unfolding unless_set ask IsStopped handled
unless_set-IsStopped none go tags rest = rest none
unless_set-IsStopped (some zero) go tags rest = inr (tags, refl, refl)
unless_set-IsStopped (some (suc n)) go tags rest = rest (some n)

pub batch-IsStopped :
    (rmi : Text → Option ℕ) (tags : List Text) (e : Event)
    → IsStopped tags (cleanup_images_batch rmi tags e)
unfolding cleanup_images_batch IsStopped handled
batch-IsStopped rmi [] e = inl refl
batch-IsStopped rmi (tag ∷ tags) e =
    unless_set-IsStopped e
      (λ later.
        unless_ended (remove_image tag (rmi tag) later)
          (λ after. cleanup_images_batch rmi tags after))
      (tag ∷ tags)
      (λ later.
        unless_ended-IsStopped (remove_image tag (rmi tag) later)
          (λ after. cleanup_images_batch rmi tags after) tag tags
          (remove_image-tag tag (rmi tag) later) (remove_image-set tag (rmi tag) later)
          (λ after. batch-IsStopped rmi tags after))

-- A first part of the tags.
IsPrefix : List Text → List Removal → Type 0
IsPrefix tags rs = (rest : List Text) × (handled rs ++ rest ≡ tags)

unless_set-IsPrefix :
    (e : Event) (go : Event → List Removal × Event) (tags : List Text)
    → ((later : Event) → IsPrefix tags (go later).0)
    → IsPrefix tags (unless_set (ask e) go).0
unfolding unless_set ask IsPrefix handled
unless_set-IsPrefix none go tags rest = rest none
unless_set-IsPrefix (some zero) go tags rest = (tags, refl)
unless_set-IsPrefix (some (suc n)) go tags rest = rest (some n)

after_batch-IsPrefix :
    (r : List Removal × Event) (go : Event → List Removal × Event) (batch tags : List Text)
    → IsStopped batch r
    → ((later : Event) → IsPrefix tags (go later).0)
    → IsPrefix (batch ++ tags) (after_batch r go).0
unfolding after_batch IsStopped IsPrefix unless_set ask
after_batch-IsPrefix (rs, after) go batch tags (inl e) rest =
    let (left, f) = unless_set-IsPrefix after go tags rest in
    (
      left,
      rw (handled-append rs (unless_set (ask after) go).0)
          (append_assoc (handled rs) (handled (unless_set (ask after) go).0) left ∙ rw (f, e) refl),
    )
after_batch-IsPrefix (rs, after) go batch tags (inr (left, e, stop)) rest = (
  left ++ tags,
  rw (stop, append-nil rs) (sym (append_assoc (handled rs) left tags) ∙ ap (λ l. l ++ tags) e),
)

cleanup_batches-IsPrefix :
    (rmi : Text → Option ℕ) (groups : List (List Text)) (e : Event)
    → IsPrefix (flatten groups) (cleanup_batches rmi groups e).0
unfolding cleanup_batches IsPrefix handled
cleanup_batches-IsPrefix rmi [] e = ([], refl)
cleanup_batches-IsPrefix rmi (batch ∷ groups) e =
    after_batch-IsPrefix (cleanup_images_batch rmi batch e)
      (λ later. cleanup_batches rmi groups later) batch (flatten groups)
      (batch-IsStopped rmi batch e) (λ later. cleanup_batches-IsPrefix rmi groups later)

-- The batches are the list, cut in order; the fuel is enough.
pub flatten-batches_of :
    (fuel n : ℕ) (xs : List Text) → length xs ≤ fuel → flatten (batches_of fuel n xs) ≡ xs
unfolding batches_of
flatten-batches_of fuel n [] h = refl
flatten-batches_of zero n (x ∷ xs) h = absurd (omega arith)
flatten-batches_of (suc fuel) n (x ∷ xs) h =
    ap (λ l. x ∷ l)
      (ap (λ l. take n xs ++ l)
          (flatten-batches_of fuel n (drop n xs) (omega (arith, length-drop n xs)))
        ∙ take-append-drop n xs)

-- Whenever the event is set and however long the removals run: with a positive batch size, the
-- cleanup returns, and the images that it started to remove are a first part of the candidates, in
-- order.
pub cleanup_images-IsPrefix :
    (rmi : Text → Option ℕ) (e : Event) (images : List Text) (n : ℕ)
    → (removals : List Removal) × (rest : List Text) × (cleanup_images rmi e
          (ok images)
          (pos (suc n))
        ≡ ok removals)
      × (handled removals ++ rest ≡ images)
unfolding cleanup_images ask batches handled IsPrefix
cleanup_images-IsPrefix rmi none images n =
    let groups = batches_of (length images) n images in
    let (rest, e) = cleanup_batches-IsPrefix rmi groups none in
    (
      (cleanup_batches rmi groups none).0,
      rest,
      refl,
      e ∙ flatten-batches_of (length images) n images (omega arith),
    )
cleanup_images-IsPrefix rmi (some zero) images n = ([], images, refl, refl)
cleanup_images-IsPrefix rmi (some (suc left)) images n =
    let groups = batches_of (length images) n images in
    let (rest, e) = cleanup_batches-IsPrefix rmi groups (some left) in
    (
      (cleanup_batches rmi groups (some left)).0,
      rest,
      refl,
      e ∙ flatten-batches_of (length images) n images (omega arith),
    )
