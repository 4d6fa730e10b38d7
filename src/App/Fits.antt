-- ===== src/App/Fits.antt =====
-- MovieDBApp/MovieDBApp/Services/MovieService.swift: what is asked of each task that the service
-- created, through changes of the state.
use prj_movie_dbapp.Prelude.{
  ℕ, zero, suc, ◌≤◌, ◌≡◌, ◌⊎◌, inl, inr, refl, sym, ap, ◌∙◌, Bool, true, false, Option, none, some,
  List, [], ◌∷◌, ◌++◌, arith, length, get_elem?, set,
}
use mathlib.Core.Path.{subst}
use prj_movie_dbapp.App.Service.{Text}
use prj_movie_dbapp.App.DataSource.{
  State, running, suspended, canceling, completed, Task, DataSource, is_running, is_fetching,
  add_task,
}

-- Where an entry of a longer list comes from, and one of a changed list.
pub get_elem?-append :
    {A : Type 0} (xs : List A) (x : A) (i : ℕ) (y : A)
    → get_elem? (xs ++ x ∷ []) i ≡ some y
    → (get_elem? xs i ≡ some y) ⊎ ((i ≡ length xs) × (y ≡ x))
get_elem?-append [] x zero y h = inr (refl, (cc))
get_elem?-append [] x (suc i) y h = absurd (cc)
get_elem?-append (z ∷ xs) x zero y h = inl h
get_elem?-append (z ∷ xs) x (suc i) y h = elim (get_elem?-append xs x i y h) [
  | inl old ↦ inl old
  | inr (at, new) ↦ inr (ap suc at, new)
]

get_elem?-set :
    {A : Type 0} (xs : List A) (i : ℕ) (x : A) (j : ℕ) (y : A)
    → get_elem? (set xs i x) j ≡ some y
    → (get_elem? xs j ≡ some y) ⊎ ((i ≡ j) × (y ≡ x))
get_elem?-set [] i x j y h = inl h
get_elem?-set (z ∷ xs) zero x zero y h = inr (refl, (cc))
get_elem?-set (z ∷ xs) zero x (suc j) y h = inl h
get_elem?-set (z ∷ xs) (suc i) x zero y h = inl h
get_elem?-set (z ∷ xs) (suc i) x (suc j) y h = elim (get_elem?-set xs i x j y h) [
  | inl old ↦ inl old
  | inr (at, new) ↦ inr (ap suc at, new)
]

-- A running task is the service's; a task has the data source's phrase, and a page it has come to.
pub record Fits (phrase : Option Text) (page : ℕ) (fetching : Option ℕ) (i : ℕ) (task : Task)
    : Type 0 where
  pub kept : task.state ≡ running → fetching ≡ some i
  pub page_from : 1 ≤ task.page
  pub page_to : task.page ≤ page
  pub asked : task.phrase ≡ phrase

pub stopped : {b : Bool} → b ≡ true → b ≡ false → ⊥
stopped h k = cc

-- What a task that runs is, and one that does not.
pub is_running-some :
    (o : Option Task)
    → is_running o ≡ true
    → (task : Task) × (o ≡ some task) × (task.state ≡ running)
is_running-some none h = absurd (cc)
is_running-some (some task) h = (task, refl, of_state (task.state) h)
  where
    of_state :
        (state : State) → is_running (some (record task { state = state })) ≡ true → state ≡ running
    of_state running h = refl
    of_state suspended h = absurd (cc)
    of_state canceling h = absurd (cc)
    of_state completed h = absurd (cc)

pub running-is_running : (task : Task) → task.state ≡ running → is_running (some task) ≡ true
running-is_running task h = of_state (task.state) h
  where
    of_state :
        (state : State) → state ≡ running → is_running (some (record task { state = state })) ≡ true
    of_state running h = refl
    of_state suspended h = absurd (cc)
    of_state canceling h = absurd (cc)
    of_state completed h = absurd (cc)

module _ {Image : Type 0} where
  pub record Tasks (phrase : Option Text) (d : DataSource Image) : Type 0 where
    pub each :
        (i : ℕ) (task : Task)
        → get_elem? d.tasks i ≡ some task
        → Fits phrase d.page d.fetching_movies_task i task
    pub first : 1 ≤ d.page
    pub source : d.search_phrase ≡ phrase

  -- Another record of the service's task is right while none runs.
  none_runs :
      (d : DataSource Image) (i : ℕ) (task : Task)
      → d.fetching_movies_task ≡ some i
      → get_elem? d.tasks i ≡ some task
      → task.state ≡ running
      → is_fetching d ≡ true
  unfolding is_fetching
  none_runs d i task e at r = given (d.fetching_movies_task) e
    where
      given :
          (o : Option ℕ)
          → o ≡ some i
          → (elim o [ none ↦ false | some i ↦ is_running (get_elem? d.tasks i) ]) ≡ true
      given none e = absurd (cc)
      given (some j) e =
          subst (λ k. is_running (get_elem? d.tasks k) ≡ true) (sym (some_same e))
            (subst (λ k. is_running k ≡ true) (sym at) (running-is_running task r))
        where
          some_same : ◌≡◌ {A = Option ℕ} (some j) (some i) → j ≡ i
          some_same p = cc

  pub Tasks-add_task :
      {phrase : Option Text} (d : DataSource Image)
      → Tasks phrase d
      → is_fetching d ≡ false
      → Tasks phrase (add_task phrase d)
  Tasks-add_task {phrase} d t idle = record {
    each = λ i task h. elim (get_elem?-append d.tasks new_task i task h) [
      | inl old ↦
          let fits = t.each i task old in
          record {
            kept = λ r. absurd (stopped (none_runs d i task (fits.kept r) old r) idle);
            page_from = fits.page_from;
            page_to = fits.page_to;
            asked = fits.asked;
          }
      | inr (at, new) ↦
          subst (λ k. Fits phrase d.page (some (length d.tasks)) i k) (sym new)
            (record {
              kept = λ r. ap some (sym at);
              page_from = t.first;
              page_to = omega arith;
              asked = refl;
            })
    ];
    first = t.first;
    source = t.source;
  }
    where
      new_task : Task
      new_task = record { phrase = phrase; page = d.page; state = running; waiting = true }

  -- A task may be replaced by one that runs only if it did.
  pub Tasks-set :
      {phrase : Option Text} (d : DataSource Image) (i : ℕ) (task task' : Task)
      → get_elem? d.tasks i ≡ some task
      → (task'.state ≡ running → task.state ≡ running)
      → task'.page ≡ task.page
      → task'.phrase ≡ task.phrase
      → Tasks phrase d
      → Tasks phrase (record d { tasks = set d.tasks i task' })
  Tasks-set {phrase} d i task task' at runs p q t = record {
    each = λ j other h. elim (get_elem?-set d.tasks i task' j other h) [
      | inl old ↦ t.each j other old
      | inr (here, new) ↦
          let fits = t.each i task at in
          subst (λ k. Fits phrase d.page d.fetching_movies_task k other) here
            (subst (λ k. Fits phrase d.page d.fetching_movies_task i k) (sym new)
              (record {
                kept = λ r. fits.kept (runs r);
                page_from = subst (λ k. 1 ≤ k) (sym p) fits.page_from;
                page_to = subst (λ k. k ≤ d.page) (sym p) fits.page_to;
                asked = q ∙ fits.asked;
              }))
    ];
    first = t.first;
    source = t.source;
  }

  -- Only posters differ, and the page may be a later one.
  pub Tasks-later :
      {phrase : Option Text} (d d' : DataSource Image)
      → d'.tasks ≡ d.tasks
      → d'.fetching_movies_task ≡ d.fetching_movies_task
      → d'.search_phrase ≡ d.search_phrase
      → d.page ≤ d'.page
      → Tasks phrase d
      → Tasks phrase d'
  Tasks-later {phrase} d d' e f g le t = record {
    each = λ i task h.
        let fits = t.each i task (ap (λ k. get_elem? k i) (sym e) ∙ h) in
        record {
          kept = λ r. f ∙ fits.kept r;
          page_from = fits.page_from;
          page_to = omega (arith, fits.page_to, le);
          asked = fits.asked;
        };
    first = omega (arith, t.first, le);
    source = g ∙ t.source;
  }
