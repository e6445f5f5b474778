-- ===== src/Unpack/Drains.antt =====
-- restoreDataFiles (internal/integration/postgres/restore.go): which files its goroutines restore.
use pgwarden.Prelude.{
  ℕ, suc, ◌+◌, ◌-◌, ◌≤◌, ◌≡◌, refl, sym, ap, ◌∙◌, Bool, true, false, Option, none, List, [], ◌∷◌,
  ◌++◌, Bytes, length, length-append, All, All-append, ◌⊎◌, inl, inr, arith, if◌then◌else◌,
}
use pgwarden.Unpack.{ZipFile, UnpackError, data_workers}
use pgwarden.Unpack.Phase.{
  Pool, start, Step, take_file, finish, fail, kill, drop_file, leave, cancel, abort, Steps, here,
  next, IsFinished, first, result,
}

-- How many files pass a test.
abbrev pub count : (ZipFile → Bool) → List ZipFile → ℕ
count p [] = 0
count p (f ∷ fs) = (if p f then 1 else 0) + count p fs

count-append :
    (p : ZipFile → Bool) (fs gs : List ZipFile) → count p (fs ++ gs) ≡ count p fs + count p gs
count-append p [] gs = omega arith
count-append p (f ∷ fs) gs = omega (arith, count-append p fs gs)

count-middle :
    (p : ZipFile → Bool) (before after : List ZipFile) (f : ZipFile)
    → count p (before ++ f ∷ after) ≡ (if p f then 1 else 0) + count p (before ++ after)
count-middle p before after f =
    omega (arith, count-append p before (f ∷ after), count-append p before after)

pub length-middle :
    (before after : List ZipFile) (f : ZipFile)
    → length (before ++ f ∷ after) ≡ suc (length (before ++ after))
length-middle before after f =
    omega (arith, length-append before (f ∷ after), length-append before after)

module _ (psql : ZipFile → Option Bytes) (jobs : ℕ) (files : List ZipFile) where
  -- No file is lost or doubled; a goroutine ends early only with a file that it gives up, and gives one
  -- up only after an error or the end of the caller's context.
  pub record IsBalanced (s : Pool) : Type 0 where
    pub total :
        (p : ZipFile → Bool)
        → count p s.restored + (count p s.in_work + (count p s.given_up + count p s.queue))
          ≡ count p files
    pub crew : s.ended + (length s.given_up + s.workers) ≡ data_workers jobs files
    pub size : s.capacity ≡ data_workers jobs files
    pub sent : length s.errors ≤ length s.given_up
    pub shut : s.closed ≡ true
    pub over : (s.ended ≡ 0) ⊎ (s.queue ≡ [])
    pub room : length s.in_work ≤ s.workers
    pub calm : s.errors ≡ [] → s.aborted ≡ false → (s.given_up ≡ []) × (s.cancelled ≡ false)
    pub sound : All (λ f. psql f ≡ none) s.restored

  start-IsBalanced : IsBalanced (start jobs files)
  unfolding start
  start-IsBalanced = record {
    total = λ p. omega arith;
    crew = omega arith;
    size = refl;
    sent = omega arith;
    shut = refl;
    over = inl refl;
    room = omega arith;
    calm = λ e a. (refl, refl);
    sound = tt;
  }

  errors-append :
      {A : Type 0} (errors : List UnpackError) (e : UnpackError) → errors ++ e ∷ [] ≡ [] → A
  errors-append [] e h = absurd (cc)
  errors-append (x ∷ errors) e h = absurd (cc)

  -- A file in work is given up with an error.
  lose-IsBalanced :
      (s : Pool) (before after : List ZipFile) (f : ZipFile) (e : UnpackError)
      → s.in_work ≡ before ++ f ∷ after
      → IsBalanced s
      → IsBalanced (record s {
        in_work = before ++ after;
        given_up = f ∷ s.given_up;
        workers = s.workers - 1;
        errors = s.errors ++ e ∷ [];
      })
  lose-IsBalanced s before after f e at b =
      let n = ap (λ (fs : List ZipFile). length fs) at ∙ length-middle before after f in
      record {
        total = λ p. omega (
          arith,
          b.total p,
          ap (λ (fs : List ZipFile). count p fs) at,
          count-middle p before after f,
        );
        crew = omega (arith, b.crew, b.room, n);
        size = b.size;
        sent = omega (arith, b.sent, length-append s.errors (e ∷ []));
        shut = b.shut;
        over = b.over;
        room = omega (arith, b.room, n);
        calm = λ none_sent a. errors-append s.errors e none_sent;
        sound = b.sound;
      }

  busy :
      {A : Type 0} (s : Pool)
      → IsBalanced s
      → (s.cancelled ≡ true) ⊎ (s.aborted ≡ true)
      → s.errors ≡ []
      → s.aborted ≡ false
      → A
  busy s b (inl c) e a = absurd (let no = (b.calm e a).1 in cc)
  busy s b (inr c) e a = absurd (cc)

  -- While a file is in the queue, no goroutine has found it empty.
  not_over :
      (s : Pool) (f : ZipFile) (rest : List ZipFile)
      → IsBalanced s
      → s.queue ≡ f ∷ rest
      → s.ended ≡ 0
  not_over s f rest b at = elim b.over [
    | inl none_ended ↦ none_ended
    | inr empty ↦ absurd (let no = sym empty ∙ at in cc)
  ]

  Step-IsBalanced : {s t : Pool} → Step psql s t → IsBalanced s → IsBalanced t
  Step-IsBalanced {s} (take_file f rest at free) b = record {
    total = λ p. omega (arith, b.total p, ap (λ (fs : List ZipFile). count p fs) at);
    crew = b.crew;
    size = b.size;
    sent = b.sent;
    shut = b.shut;
    over = inl (not_over s f rest b at);
    room = omega (arith, free);
    calm = b.calm;
    sound = b.sound;
  }
  Step-IsBalanced {s} (finish before after f at good) b =
      let n = ap (λ (fs : List ZipFile). length fs) at ∙ length-middle before after f in
      record {
        total = λ p. omega (
          arith,
          b.total p,
          ap (λ (fs : List ZipFile). count p fs) at,
          count-middle p before after f,
          count-append p s.restored (f ∷ []),
        );
        crew = b.crew;
        size = b.size;
        sent = b.sent;
        shut = b.shut;
        over = b.over;
        room = omega (arith, b.room, n);
        calm = b.calm;
        sound = All-append _ s.restored (f ∷ []) b.sound (good, tt);
      }
  Step-IsBalanced {s} (fail before after f e at bad free) b =
      lose-IsBalanced s before after f _ at b
  Step-IsBalanced {s} (kill before after f e at stop free) b =
      lose-IsBalanced s before after f _ at b
  Step-IsBalanced {s} (drop_file f rest at free stop) b = record {
    total = λ p. omega (arith, b.total p, ap (λ (fs : List ZipFile). count p fs) at);
    crew = omega (arith, b.crew, free);
    size = b.size;
    sent = omega (arith, b.sent);
    shut = b.shut;
    over = inl (not_over s f rest b at);
    room = omega (arith, free);
    calm = λ e a. busy s b stop e a;
    sound = b.sound;
  }
  Step-IsBalanced {s} (leave empty shut free) b = record {
    total = b.total;
    crew = omega (arith, b.crew, free);
    size = b.size;
    sent = b.sent;
    shut = b.shut;
    over = inr empty;
    room = omega (arith, free);
    calm = b.calm;
    sound = b.sound;
  }
  Step-IsBalanced {s} (cancel off e errors sent) b = record {
    total = b.total;
    crew = b.crew;
    size = b.size;
    sent = b.sent;
    shut = b.shut;
    over = b.over;
    room = b.room;
    calm = λ none_sent a. absurd (let no = sym none_sent ∙ sent in cc);
    sound = b.sound;
  }
  Step-IsBalanced {s} (abort off) b = record {
    total = b.total;
    crew = b.crew;
    size = b.size;
    sent = b.sent;
    shut = b.shut;
    over = b.over;
    room = b.room;
    calm = λ e a. absurd (cc);
    sound = b.sound;
  }

  pub Steps-IsBalanced : {s : Pool} → Steps psql (start jobs files) s → IsBalanced s
  Steps-IsBalanced here = start-IsBalanced
  Steps-IsBalanced (next r step) = Step-IsBalanced step (Steps-IsBalanced r)

  workers-positive : 1 ≤ data_workers jobs files
  unfolding data_workers
  workers-positive = ground arith

unsent : (errors : List UnpackError) → first errors ≡ none → errors ≡ []
unsent [] h = refl
unsent (e ∷ errors) h = absurd (cc)

no_workers : (n : ℕ) → 1 ≤ n → ◌≡◌ {A = ℕ} n 0 → ⊥
no_workers n h k = absurd (omega arith)

-- When the goroutines have ended, no error was sent and the caller's context lives, every data file has
-- been restored by psql without an error, once and no more: any test counts the same files among the
-- restored ones as among the given ones.
pub phase_restores_all :
    (psql : ZipFile → Option Bytes) (jobs : ℕ) (files : List ZipFile) (s : Pool)
    → Steps psql (start jobs files) s
    → IsFinished s
    → result s ≡ none
    → s.aborted ≡ false
    → ((p : ZipFile → Bool) → count p s.restored ≡ count p files)
      × All (λ f. psql f ≡ none) s.restored
unfolding result
phase_restores_all psql jobs files s run done clean alive =
    let b = Steps-IsBalanced psql jobs files run in
    let (kept, calm) = b.calm (unsent s.errors clean) alive in
    let full = ap (λ (fs : List ZipFile). length fs) kept in
    let empty : s.queue ≡ [] = elim b.over [
      | inl none_ended ↦ absurd (
          omega (arith, b.crew, full, done.all_ended, none_ended, workers-positive psql jobs files))
      | inr all ↦ all
    ] in
    (
      λ p. omega (
        arith,
        b.total p,
        ap (λ (fs : List ZipFile). count p fs) kept,
        ap (λ (fs : List ZipFile). count p fs) empty,
        ap (λ (fs : List ZipFile). count p fs) done.idle,
      ),
      b.sound,
    )
