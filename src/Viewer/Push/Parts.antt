-- ===== src/Viewer/Push/Parts.antt =====
-- A turn hands out what a viewer is owed, with no gap: the response head, the codec's setup, and the
-- stream from where it stands.
use support_proxy.Base.{
  ℕ, ◌+◌, ◌-◌, min, ◌≡◌, refl, sym, ap, ◌∙◌, Bool, true, false, not, List, [], ◌∷◌, ◌++◌, Option,
  none, some, ltb, ◌==◌, if◌then◌else◌, length, take, drop, drop_add, drop_all, take-append-drop,
  append_assoc, arith,
}
use support_proxy.Viewer.{VideoViewer, SendAnswer, room, interrupted, again, broken, viewer_chunk}
use support_proxy.Viewer.Push.{Turn, turn, with_out, flushed, flush_head, send_prefix, then_turn}

abbrev pub head : VideoViewer → List ℕ
head v = drop v.out_sent v.out

abbrev pub setup : VideoViewer → List ℕ
setup v = drop v.prefix_sent v.prefix

-- What a viewer of the stream `h` is still owed of it.
abbrev pub owed : List ℕ → VideoViewer → List ℕ
owed h v = head v ++ (setup v ++ drop v.read_pos h)

abbrev pub Conserves : List ℕ → VideoViewer → Turn → Type 0
Conserves h v t = t.out ++ owed h t.viewer ≡ owed h v

pub Conserves-test :
    (h : List ℕ) (v : VideoViewer) (b : Bool) (x y : Turn)
    → (b ≡ true → Conserves h v x)
    → (b ≡ false → Conserves h v y)
    → Conserves h v (if b then x else y)
Conserves-test h v true x y f g = f refl
Conserves-test h v false x y f g = g refl

-- Bytes that go out before a turn of the viewer that they lead to.
pub with_out-Conserves :
    (h bytes : List ℕ) (v v' : VideoViewer) (t : Turn)
    → bytes ++ owed h v' ≡ owed h v
    → Conserves h v' t
    → Conserves h v (with_out bytes t)
with_out-Conserves h bytes v v' t e c =
    append_assoc bytes t.out (owed h t.viewer) ∙ (ap (λ (l : List ℕ). bytes ++ l) c ∙ e)

pub then_turn-Conserves :
    (h : List ℕ) (v : VideoViewer) (t : Turn) (next : VideoViewer → List SendAnswer → Turn)
    → Conserves h v t
    → (t.answer ≡ none → Conserves h t.viewer (next t.viewer t.answers))
    → Conserves h v (then_turn t next)
unfolding then_turn
then_turn-Conserves h v t next c k =
    elim (t.answer)
        as (λ (a : Option Bool).
          t.answer ≡ a
          → Conserves h v (elim a as (λ b. Turn) [
            | some b ↦ t
            | none ↦ with_out t.out (next t.viewer t.answers)
          ])) [
            | some b ↦ λ _. c
            | none ↦ λ e. with_out-Conserves h t.out v t.viewer (next t.viewer t.answers) c (k e)
          ]
      refl

split_off :
    (s w : ℕ) (l rest : List ℕ) → take w (drop s l) ++ (drop (s + w) l ++ rest) ≡ drop s l ++ rest
split_off s w l rest =
    sym (append_assoc (take w (drop s l)) (drop (s + w) l) rest)
    ∙ ap (λ (r : List ℕ). r ++ rest)
        (ap (λ (r : List ℕ). take w (drop s l) ++ r) (drop_add s w l)
          ∙ take-append-drop w (drop s l))

-- What flush leaves besides: no head where there was none, and the state.
pub record HeadFlushed (h : List ℕ) (v : VideoViewer) (t : Turn) : Type 0 where
  pub conserves : Conserves h v t
  pub same_state : (t.viewer).state ≡ v.state
  pub no_head : v.out ≡ [] → (t.viewer).out ≡ []

HeadFlushed-test :
    (h : List ℕ) (v : VideoViewer) (b : Bool) (x y : Turn)
    → (b ≡ true → HeadFlushed h v x)
    → (b ≡ false → HeadFlushed h v y)
    → HeadFlushed h v (if b then x else y)
HeadFlushed-test h v true x y f g = f refl
HeadFlushed-test h v false x y f g = g refl

flushed-HeadFlushed :
    (h : List ℕ) (v : VideoViewer) (answers : List SendAnswer)
    → not (ltb v.out_sent (length v.out)) ≡ true
    → HeadFlushed h v (turn none (flushed v) answers)
flushed-HeadFlushed h v answers e = record {
  conserves =
      ap (λ (l : List ℕ). l ++ (setup v ++ drop v.read_pos h))
        (sym (drop_all v.out_sent v.out (ground (arith, e))));
  same_state = refl;
  no_head = λ _. refl;
}

waiting-HeadFlushed :
    (h : List ℕ) (v v' : VideoViewer) (b : Option Bool) (answers : List SendAnswer)
    → owed h v' ≡ owed h v
    → v'.state ≡ v.state
    → v'.out ≡ v.out
    → HeadFlushed h v (turn b v' answers)
waiting-HeadFlushed h v v' b answers o s e = record {
  conserves = o;
  same_state = s;
  no_head = λ x. e ∙ x;
}

pub flush_head-HeadFlushed :
    (h : List ℕ) (v : VideoViewer) (now : ℕ) (answers : List SendAnswer)
    → HeadFlushed h v (flush_head v now answers)
unfolding flush_head
flush_head-HeadFlushed h v now [] =
    HeadFlushed-test h v (not (ltb v.out_sent (length v.out))) _ _ (flushed-HeadFlushed h v [])
      (λ _. waiting-HeadFlushed h v _ none [] refl refl refl)
flush_head-HeadFlushed h v now (room n ∷ answers) =
    let w = min n (length v.out - v.out_sent) in
    let v' : VideoViewer = record v { out_sent = v.out_sent + w; last_progress = now } in
    let ih = flush_head-HeadFlushed h v' now answers in
    HeadFlushed-test h v (not (ltb v.out_sent (length v.out))) _ _
      (flushed-HeadFlushed h v (room n ∷ answers))
      (λ _. record {
        conserves =
            with_out-Conserves h (take w (head v)) v v' (flush_head v' now answers)
              (split_off v.out_sent w v.out (setup v ++ drop v.read_pos h)) ih.conserves;
        same_state = ih.same_state;
        no_head = ih.no_head;
      })
flush_head-HeadFlushed h v now (interrupted ∷ answers) =
    HeadFlushed-test h v (not (ltb v.out_sent (length v.out))) _ _
      (flushed-HeadFlushed h v (interrupted ∷ answers))
      (λ _. flush_head-HeadFlushed h v now answers)
flush_head-HeadFlushed h v now (again ∷ answers) =
    HeadFlushed-test h v (not (ltb v.out_sent (length v.out))) _ _
      (flushed-HeadFlushed h v (again ∷ answers))
      (λ _. waiting-HeadFlushed h v _ none answers refl refl refl)
flush_head-HeadFlushed h v now (broken ∷ answers) =
    HeadFlushed-test h v (not (ltb v.out_sent (length v.out))) _ _
      (flushed-HeadFlushed h v (broken ∷ answers))
      (λ _. waiting-HeadFlushed h v _ (some false) answers refl refl refl)

-- Behind the setup, which goes out behind the head, nothing but the stream is owed.
pub record SetUp (h : List ℕ) (v : VideoViewer) (t : Turn) : Type 0 where
  pub conserves : Conserves h v t
  pub headless : head t.viewer ≡ []
  pub complete : t.answer ≡ none → setup t.viewer ≡ []

SetUp-test :
    (h : List ℕ) (v : VideoViewer) (b : Bool) (x y : Turn)
    → (b ≡ true → SetUp h v x)
    → (b ≡ false → SetUp h v y)
    → SetUp h v (if b then x else y)
SetUp-test h v true x y f g = f refl
SetUp-test h v false x y f g = g refl

through :
    (h : List ℕ) (v : VideoViewer) (answers : List SendAnswer)
    → head v ≡ []
    → not (ltb v.prefix_sent (length v.prefix)) ≡ true
    → SetUp h v (turn none v answers)
through h v answers e f = record {
  conserves = refl;
  headless = e;
  complete = λ _. drop_all v.prefix_sent v.prefix (ground (arith, f));
}

stopped :
    (h : List ℕ) (v v' : VideoViewer) (b : Bool) (answers : List SendAnswer)
    → head v' ≡ []
    → owed h v' ≡ owed h v
    → SetUp h v (turn (some b) v' answers)
stopped h v v' b answers e o = record {
  conserves = o;
  headless = e;
  complete = λ x. ground (arith, x);
}

pub send_prefix-SetUp :
    (over_ws : Bool) (h : List ℕ) (v : VideoViewer) (now : ℕ) (answers : List SendAnswer)
    → head v ≡ []
    → SetUp h v (send_prefix over_ws v now answers)
unfolding send_prefix
send_prefix-SetUp over_ws h v now [] e =
    SetUp-test h v (ltb v.prefix_sent (length v.prefix)) _ _ (λ _. stopped h v _ _ [] e refl)
      (λ f. through h v [] e (ground (arith, f)))
send_prefix-SetUp over_ws h v now (room n ∷ answers) e =
    let w = min n (min viewer_chunk (length v.prefix - v.prefix_sent)) in
    let v' : VideoViewer = record v { prefix_sent = v.prefix_sent + w; last_progress = now } in
    let ih = send_prefix-SetUp over_ws h v' now answers e in
    SetUp-test h v (not (ltb v.prefix_sent (length v.prefix))) _ _
      (through h v (room n ∷ answers) e)
      (λ _.
        SetUp-test h v (w == 0) _ _
          (λ _.
            SetUp-test h v over_ws _ _ (λ _. stopped h v _ _ answers e refl)
              (λ _. stopped h v v false answers e refl))
          (λ _. record {
            conserves =
                with_out-Conserves h (take w (setup v)) v v' (send_prefix over_ws v' now answers)
                  (ap (λ (l : List ℕ). take w (setup v) ++ (l ++ (setup v' ++ drop v.read_pos h))) e
                    ∙ (split_off v.prefix_sent w v.prefix (drop v.read_pos h)
                        ∙ ap (λ (l : List ℕ). l ++ (setup v ++ drop v.read_pos h)) (sym e)))
                  ih.conserves;
            headless = ih.headless;
            complete = ih.complete;
          }))
send_prefix-SetUp over_ws h v now (interrupted ∷ answers) e =
    SetUp-test h v (not (ltb v.prefix_sent (length v.prefix))) _ _
      (through h v (interrupted ∷ answers) e) (λ _. send_prefix-SetUp over_ws h v now answers e)
send_prefix-SetUp over_ws h v now (again ∷ answers) e =
    SetUp-test h v (not (ltb v.prefix_sent (length v.prefix))) _ _ (through h v (again ∷ answers) e)
      (λ _. stopped h v _ _ answers e refl)
send_prefix-SetUp over_ws h v now (broken ∷ answers) e =
    SetUp-test h v (not (ltb v.prefix_sent (length v.prefix))) _ _
      (through h v (broken ∷ answers) e) (λ _. stopped h v v false answers e refl)
