-- ===== src/Player/Apart.antt =====
-- The tasks of the player under way: which are of one kind and one generation.
use silo_plugin_dispatcharr.Base.{
  ℕ, ◌≤◌, ◌<◌, ◌≡◌, refl, ◌∙◌, inl, inr, true, false, ◌&&◌, List, [], ◌∷◌, ◌++◌, arith, nat_beq,
  nat_beq_iff, All, All-append, string_eq, nat_eq,
}
use silo_plugin_dispatcharr.Player.State.{Kind, watch, transcode, timeshift, Player}
use silo_plugin_dispatcharr.Player.Tasks.{Task}
use silo_plugin_dispatcharr.Player.Leases.{attempt, kind_beq, Keeps}
use silo_plugin_dispatcharr.Player.Resume.{
  IsTask, Resumes, task_kind, task_attempt, is_same, Follows,
}

abbrev pub IsApart : Task → Task → Type 0
IsApart t u = is_same t u ≡ false

-- No two tasks are of one kind and one generation.
abbrev pub AllApart : List Task → Type 0
AllApart [] = Unit
AllApart (t ∷ ts) = All (IsApart t) ts × AllApart ts

kind_beq_sym : (k j : Kind) → kind_beq k j ≡ kind_beq j k
kind_beq_sym watch watch = refl
kind_beq_sym watch transcode = refl
kind_beq_sym watch timeshift = refl
kind_beq_sym transcode watch = refl
kind_beq_sym transcode transcode = refl
kind_beq_sym transcode timeshift = refl
kind_beq_sym timeshift watch = refl
kind_beq_sym timeshift transcode = refl
kind_beq_sym timeshift timeshift = refl

pub kind_beq_eq : (k j : Kind) → kind_beq k j ≡ true → k ≡ j
kind_beq_eq watch watch h = refl
kind_beq_eq watch transcode h = ground arith
kind_beq_eq watch timeshift h = ground arith
kind_beq_eq transcode watch h = ground arith
kind_beq_eq transcode transcode h = refl
kind_beq_eq transcode timeshift h = ground arith
kind_beq_eq timeshift watch h = ground arith
kind_beq_eq timeshift transcode h = ground arith
kind_beq_eq timeshift timeshift h = refl

is_same_sym : (t u : Task) → is_same t u ≡ is_same u t
is_same_sym t u = ground (arith, kind_beq_sym (task_kind t) (task_kind u))

pub All-remove :
    (P : Task → Type 0) (before : List Task) (t : Task) (after : List Task)
    → All P (before ++ t ∷ after)
    → P t × All P (before ++ after)
All-remove P [] t after h = h
All-remove P (b ∷ bs) t after h = let rest = All-remove P bs t after h.1 in (rest.0, (h.0, rest.1))

pub AllApart-remove :
    (before : List Task) (t : Task) (after : List Task)
    → AllApart (before ++ t ∷ after)
    → All (IsApart t) (before ++ after) × AllApart (before ++ after)
AllApart-remove [] t after h = h
AllApart-remove (b ∷ bs) t after h =
    let apart = All-remove (IsApart b) bs t after h.0 in
    let rest = AllApart-remove bs t after h.1 in
    ((is_same_sym t b ∙ apart.0, rest.0), (apart.1, rest.1))

pub AllApart-append :
    (new old : List Task)
    → AllApart new
    → All (λ n. All (IsApart n) old) new
    → AllApart old
    → AllApart (new ++ old)
AllApart-append [] old a b c = c
AllApart-append (n ∷ ns) old a b c =
    (All-append (IsApart n) ns old a.0 b.0, AllApart-append ns old a.1 b.1 c)

pub All-mono :
    {A : Type 0} (P Q : A → Type 0) (xs : List A) → ((x : A) → P x → Q x) → All P xs → All Q xs
All-mono P Q [] f h = tt
All-mono P Q (x ∷ xs) f h = (f x h.0, All-mono P Q xs f h.1)

pub All-both :
    {A : Type 0} (P Q : A → Type 0) (xs : List A) → All P xs → All Q xs → All (λ x. P x × Q x) xs
All-both P Q [] h k = tt
All-both P Q (x ∷ xs) h k = ((h.0, k.0), All-both P Q xs h.1 k.1)

-- A task that starts is of a generation that no task under way has.
pub newer :
    (p : Player) (k j : Kind) (a b : ℕ)
    → attempt k p < a
    → b ≤ attempt j p
    → (kind_beq k j && nat_beq a b) ≡ false
newer p watch watch a b h e = ground arith
newer p transcode transcode a b h e = ground arith
newer p timeshift timeshift a b h e = ground arith
newer p watch transcode a b h e = refl
newer p watch timeshift a b h e = refl
newer p transcode watch a b h e = refl
newer p transcode timeshift a b h e = refl
newer p timeshift watch a b h e = refl
newer p timeshift transcode a b h e = refl

is_same_trans : (t n u : Task) → is_same t n ≡ true → is_same t u ≡ false → is_same n u ≡ false
is_same_trans t n u h e =
    ground (
      arith,
      kind_beq_eq (task_kind t) (task_kind n),
      nat_beq_iff (task_attempt t) (task_attempt n),
    )

pub follow-IsApart :
    (p : Player) (t n u : Task) → Follows p t n → IsTask p u → IsApart t u → IsApart n u
follow-IsApart p t n u (inl same) h e = is_same_trans t n u same e
follow-IsApart p t n u (inr new) h e =
    newer p (task_kind n) (task_kind u) (task_attempt n) (task_attempt u) new h.begun

pub IsTask-Keeps : (p q : Player) (u : Task) → Keeps p q → IsTask p u → IsTask q u
IsTask-Keeps p q u k h = record {
  begun = ground (arith, k.slots (task_kind u), h.begun);
  expects = λ e. ground (arith, k.slots (task_kind u), h.begun, h.expects);
  tried = λ c e.
      ground
        (arith, k.slots transcode, h.begun, h.tried, k.tried, kind_beq_eq (task_kind u) transcode);
}

pub IsTask-Resumes :
    (p q : Player) (t u : Task) (new : List Task)
    → Resumes p t q new
    → IsApart t u
    → IsTask p u
    → IsTask q u
IsTask-Resumes p q t u new k apart h = record {
  begun = ground (arith, k.slots (task_kind u), h.begun);
  expects = λ e. ground (arith, k.slots (task_kind u), h.begun, h.expects);
  tried = λ c e.
      ground
        (arith, k.slots transcode, h.begun, h.tried, k.tried, kind_beq_eq (task_kind u) transcode);
}
