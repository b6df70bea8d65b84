-- ===== src/Gitops/Report.antt =====
-- internal/app/gitopsync/loop.go: what the marks on the entries of the merge groups say.
pub mod Calls
pub mod Ends
pub mod Groups
pub mod Parts
pub mod Told
use swarm_hpa.Base.{
  map, ℕ, zero, suc, ◌≡◌, refl, ap, ◌⊎◌, inl, inr, List, [], ◌∷◌, ◌++◌, Text, lit, length, All,
  All-append,
}
use swarm_hpa.Statusstore.{StackFileStatus}
use swarm_hpa.Gitops.Sync.{skip_all, mark_failed_from, mark_ok}

abbrev pub Marked : Text → StackFileStatus → Type 0
Marked mark f = f.status ≡ mark

-- What an entry is about: a group's file, its overrides and its pull policy.
abbrev pub shape : StackFileStatus → Text × List Text × Text
shape f = (f.file, f.overrides, f.pull_policy)

-- The calls that deploy these groups of a stack one after the other, on top of those before, the newest first.
abbrev pub pushed : Text → List StackFileStatus → List (Text × Text) → List (Text × Text)
pushed stack [] base = base
pushed stack (f ∷ fs) base = pushed stack fs ((stack, f.pull_policy) ∷ base)

pub pushed-snoc :
    (stack : Text) (fs : List StackFileStatus) (f : StackFileStatus) (base : List (Text × Text))
    → pushed stack (fs ++ f ∷ []) base ≡ (stack, f.pull_policy) ∷ pushed stack fs base
pushed-snoc stack [] f base = refl
pushed-snoc stack (g ∷ fs) f base = pushed-snoc stack fs f ((stack, g.pull_policy) ∷ base)

-- How a pass that has reached its deploys leaves the entries, and which deploys it has called: all are deployed; or
-- the rotation of one failed behind the deployed ones, or its deploy, and the others are skipped; or, where a
-- deploy panicked, none is marked behind the deployed ones.
pub data Tail (stack stage : Text) (files : List StackFileStatus) (base calls : List (Text × Text))
    : Type 0 where
  whole :
      stage ≡ []
      → All (Marked (lit "ok")) files
      → calls ≡ pushed stack files base
      → Tail stack stage files base calls
  unrotated :
      stage ≡ lit "rotate"
      → (done : List StackFileStatus) (f : StackFileStatus) (rest : List StackFileStatus)
      → files ≡ done ++ f ∷ rest
      → All (Marked (lit "ok")) done
      → Marked (lit "failed") f
      → All (Marked (lit "skipped")) rest
      → calls ≡ pushed stack done base
      → Tail stack stage files base calls
  undeployed :
      stage ≡ lit "deploy"
      → (done : List StackFileStatus) (f : StackFileStatus) (rest : List StackFileStatus)
      → files ≡ done ++ f ∷ rest
      → All (Marked (lit "ok")) done
      → Marked (lit "failed") f
      → All (Marked (lit "skipped")) rest
      → calls ≡ (stack, f.pull_policy) ∷ pushed stack done base
      → Tail stack stage files base calls
  abandoned :
      stage ≡ lit "sync"
      → (done : List StackFileStatus) (f : StackFileStatus) (rest : List StackFileStatus)
      → files ≡ done ++ f ∷ rest
      → All (Marked (lit "ok")) done
      → All (Marked []) (f ∷ rest)
      → calls ≡ (stack, f.pull_policy) ∷ pushed stack done base
      → Tail stack stage files base calls

-- The marks change no entry's file, overrides or policy.
pub shape-skip_all : (fs : List StackFileStatus) → map shape (skip_all fs) ≡ map shape fs
unfolding skip_all
shape-skip_all [] = refl
shape-skip_all (f ∷ fs) = ap (λ l. shape f ∷ l) (shape-skip_all fs)

pub shape-mark_failed_from :
    (i : ℕ) (because : Text) (fs : List StackFileStatus)
    → map shape (mark_failed_from i because fs) ≡ map shape fs
unfolding mark_failed_from
shape-mark_failed_from i because [] = refl
shape-mark_failed_from zero because (f ∷ fs) = ap (λ l. shape f ∷ l) (shape-skip_all fs)
shape-mark_failed_from (suc i) because (f ∷ fs) =
    ap (λ l. shape f ∷ l) (shape-mark_failed_from i because fs)

pub shape-mark_ok : (i : ℕ) (fs : List StackFileStatus) → map shape (mark_ok i fs) ≡ map shape fs
unfolding mark_ok
shape-mark_ok i [] = refl
shape-mark_ok zero (f ∷ fs) = refl
shape-mark_ok (suc i) (f ∷ fs) = ap (λ l. shape f ∷ l) (shape-mark_ok i fs)

skip_all-Marked : (fs : List StackFileStatus) → All (Marked (lit "skipped")) (skip_all fs)
unfolding skip_all
skip_all-Marked [] = tt
skip_all-Marked (f ∷ fs) = (refl, skip_all-Marked fs)

mark_failed_from-append :
    (done : List StackFileStatus) (because : Text) (f : StackFileStatus)
    (rest : List StackFileStatus)
    → mark_failed_from (length done) because (done ++ f ∷ rest)
      ≡ done ++ record f { status = lit "failed"; error = because } ∷ skip_all rest
unfolding mark_failed_from
mark_failed_from-append [] because f rest = refl
mark_failed_from-append (d ∷ done) because f rest =
    ap (λ (fs : List StackFileStatus). d ∷ fs) (mark_failed_from-append done because f rest)

pub mark_ok-append :
    (done : List StackFileStatus) (f : StackFileStatus) (rest : List StackFileStatus)
    → mark_ok (length done) (done ++ f ∷ rest) ≡ done ++ record f { status = lit "ok" } ∷ rest
unfolding mark_ok
mark_ok-append [] f rest = refl
mark_ok-append (d ∷ done) f rest =
    ap (λ (fs : List StackFileStatus). d ∷ fs) (mark_ok-append done f rest)

-- A failure at the group behind the deployed ones.
pub failed_rotation :
    (stack stage because : Text) (done : List StackFileStatus) (f : StackFileStatus)
    (rest : List StackFileStatus) (base calls : List (Text × Text))
    → stage ≡ lit "rotate"
    → All (Marked (lit "ok")) done
    → calls ≡ pushed stack done base
    → Tail stack stage (mark_failed_from (length done) because (done ++ f ∷ rest)) base calls
failed_rotation stack stage because done f rest base calls s h c =
    unrotated s done (record f { status = lit "failed"; error = because }) (skip_all rest)
      (mark_failed_from-append done because f rest) h refl (skip_all-Marked rest) c

pub failed_deploy :
    (stack stage because : Text) (done : List StackFileStatus) (f : StackFileStatus)
    (rest : List StackFileStatus) (base calls : List (Text × Text))
    → stage ≡ lit "deploy"
    → All (Marked (lit "ok")) done
    → calls ≡ (stack, f.pull_policy) ∷ pushed stack done base
    → Tail stack stage (mark_failed_from (length done) because (done ++ f ∷ rest)) base calls
failed_deploy stack stage because done f rest base calls s h c =
    undeployed s done (record f { status = lit "failed"; error = because }) (skip_all rest)
      (mark_failed_from-append done because f rest) h refl (skip_all-Marked rest) c
