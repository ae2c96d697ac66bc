-- ===== src/Vine/Session/Labels.antt =====
-- The labels of a session are read as they were written.
use eecs_k8s.Prelude.{
  ℕ, zero, suc, String, str_eq, Bool, true, false, ◌≡◌, refl, sym, ap, ◌∙◌, Option, none, some, [],
  ◌∷◌, unwrap_or, Bool-cases, inl, inr,
}
use eecs_k8s.Prelude.Dict.{string_eq, Dict, get, insert, beq_refl, get-insert_self, get-insert_ne}
use eecs_k8s.Prelude.Dict.Unique.{IsUnique}
use eecs_k8s.Vine.Session.{SessionArgs, ComputeMode, container, kueue, vm, default_mode}
use eecs_k8s.Vine.Session.Metadata.{
  Texts, Metadata, parse_bool, show_bool, parse_mode, show_mode, non_empty, parsed, get_label,
  load_metadata, show_timestamp, written_labels, insert_all, build_labels,
}

abbrev nth : Dict String String → ℕ → Option (String × String)
nth [] i = none
nth (e ∷ d) zero = some e
nth (e ∷ d) (suc i) = nth d i

absent-differs :
    (d : Dict String String) (k l v : String)
    → get d k ≡ none
    → get d l ≡ some v
    → str_eq l k ≡ false
absent-differs d k l v h g = elim (Bool-cases (str_eq l k)) [
  | inl e ↦ absurd (clash (get d k) h (rw (sym ((string_eq.beq_iff l k).0 e)) g))
  | inr e ↦ e
]
  where
    clash : (o : Option String) → o ≡ none → o ≡ some v → ⊥
    clash o h g = cc

get-nth :
    (d : Dict String String) (i : ℕ) (k v : String)
    → IsUnique d
    → nth d i ≡ some (k, v)
    → get d k ≡ some v
unfolding get
get-nth [] i k v u h = cc
get-nth ((l, w) ∷ d) zero k v u h =
    let p : k ≡ l = cc in let q : w ≡ v = cc in rw (p, beq_refl l, q) refl
get-nth ((l, w) ∷ d) (suc i) k v u h =
    let g = get-nth d i k v u.1 h in rw (absent-differs d l k v u.0 g) g

module _ (texts : Texts) (args : SessionArgs) where
  get-insert_all_absent :
      (xs d : Dict String String) (k : String)
      → get xs k ≡ none
      → get (insert_all texts args xs d) k ≡ get d k
  unfolding insert_all get
  get-insert_all_absent [] d k h = refl
  get-insert_all_absent ((l, v) ∷ xs) d k h = elim (Bool-cases (str_eq k l)) [
    | inl e ↦ absurd (clash (rw e at h))
    | inr e ↦ get-insert_all_absent xs (insert l v d) k (rw e at h) ∙ get-insert_ne l k v d e
  ]
    where
      clash : some v ≡ none → ⊥
      clash h = cc

  get-insert_all :
      (xs d : Dict String String) (k v : String)
      → IsUnique xs
      → get xs k ≡ some v
      → get (insert_all texts args xs d) k ≡ some v
  unfolding insert_all get
  get-insert_all [] d k v u h = cc
  get-insert_all ((l, w) ∷ xs) d k v u h = elim (Bool-cases (str_eq k l)) [
    | inl e ↦
        let s = (string_eq.beq_iff k l).0 e in
        let q : some w ≡ some v = rw e at h in
        rw (s, get-insert_all_absent xs (insert l w d) l u.0, get-insert_self l w d) q
    | inr e ↦ get-insert_all xs (insert l w d) k v u.1 (rw e at h)
  ]

  abbrev pub label : Metadata → String → Option String
  label m key = get_label (some (build_labels texts args m)) key

  written-at :
      (m : Metadata) (i : ℕ) (k v : String)
      → IsUnique (written_labels texts args m)
      → nth (written_labels texts args m) i ≡ some (k, v)
      → label m k ≡ some v
  unfolding build_labels
  written-at m i k v u h =
      get-insert_all (written_labels texts args m) [] k v u
        (get-nth (written_labels texts args m) i k v u h)

-- The session as it is read again: a text that is empty is none, what is unset has its default, and
-- whether the user is privileged, and the GPU, are not written.
abbrev pub read_again : Metadata → Metadata
read_again m = record {
  alias = non_empty m.alias;
  bind = some (unwrap_or m.bind false);
  bind_cpu = non_empty m.bind_cpu;
  bind_memory = non_empty m.bind_memory;
  bind_namespace = non_empty m.bind_namespace;
  bind_node = non_empty m.bind_node;
  bind_persistent = some (unwrap_or m.bind_persistent false);
  bind_privileged = none;
  bind_profile = non_empty m.bind_profile;
  bind_revision = non_empty m.bind_revision;
  bind_storage = non_empty m.bind_storage;
  bind_timestamp = m.bind_timestamp;
  bind_user = non_empty m.bind_user;
  compute_mode = some (unwrap_or m.compute_mode default_mode);
  gpu = none;
  name = m.name;
  signed_out = some (unwrap_or m.signed_out true);
}

non_empty-unwrap : (o : Option String) → non_empty (some (unwrap_or o "")) ≡ non_empty o
unfolding non_empty
non_empty-unwrap none = refl
non_empty-unwrap (some t) = refl

parse_bool-show_bool : (b : Bool) → parse_bool (show_bool b) ≡ some b
unfolding parse_bool show_bool
parse_bool-show_bool true = refl
parse_bool-show_bool false = refl

parse_mode-show_mode : (m : ComputeMode) → parse_mode (show_mode m) ≡ some m
unfolding parse_mode show_mode
parse_mode-show_mode container = refl
parse_mode-show_mode kueue = refl
parse_mode-show_mode vm = refl

module _ (texts : Texts) (args : SessionArgs) (m : Metadata)
    (u : IsUnique (written_labels texts args m)) where
  text_at :
      (i : ℕ) (k : String) (o : Option String)
      → nth (written_labels texts args m) i ≡ some (k, unwrap_or o "")
      → non_empty (label texts args m k) ≡ non_empty o
  text_at i k o h =
      ap non_empty (written-at texts args m i k (unwrap_or o "") u h) ∙ non_empty-unwrap o

  parsed_at :
      {A : Type 0} (parse : String → Option A) (i : ℕ) (k v : String) (a : Option A)
      → nth (written_labels texts args m) i ≡ some (k, v)
      → parse v ≡ a
      → parsed parse (label texts args m k) ≡ a
  parsed_at parse i k v a h e = ap (parsed parse) (written-at texts args m i k v u h) ∙ e

  unwritten :
      (k : String) → get (written_labels texts args m) k ≡ none → label texts args m k ≡ none
  unfolding build_labels get
  unwritten k h = get-insert_all_absent texts args (written_labels texts args m) [] k h

-- The session that is read from a node with the labels written is the one written, but for empty
-- texts, defaults, and what is not written: whether the user is privileged, and the GPU. The keys of
-- the labels differ, those of what is not written too, and the time is read as it is written.
pub load_metadata-build_labels :
    (texts : Texts) (args : SessionArgs) (m : Metadata)
    → IsUnique (written_labels texts args m)
    → get (written_labels texts args m) args.label_bind_privileged ≡ none
    → get (written_labels texts args m) args.label_gpu ≡ none
    → texts.parse_time (show_timestamp texts args m.bind_timestamp) ≡ m.bind_timestamp
    → load_metadata texts args m.name (some (build_labels texts args m)) ≡ read_again m
unfolding load_metadata written_labels
load_metadata-build_labels texts args m u p g times =
    let text = text_at texts args m u in
    let bool = parsed_at texts args m u parse_bool in
    rw
      (
        text 0 args.label_alias m.alias refl,
        bool 1 args.label_bind _ _ refl (parse_bool-show_bool (unwrap_or m.bind false)),
        text 2 args.label_bind_cpu m.bind_cpu refl,
        text 3 args.label_bind_memory m.bind_memory refl,
        text 4 args.label_bind_namespace m.bind_namespace refl,
        text 5 args.label_bind_node m.bind_node refl,
        bool 6 args.label_bind_persistent _ _ refl
            (parse_bool-show_bool (unwrap_or m.bind_persistent false)),
        unwritten texts args m u args.label_bind_privileged p,
        text 7 args.label_bind_profile m.bind_profile refl,
        text 8 args.label_bind_revision m.bind_revision refl,
        text 9 args.label_bind_storage m.bind_storage refl,
        parsed_at texts args m u texts.parse_time 10 args.label_bind_timestamp _ _ refl times,
        text 11 args.label_bind_user m.bind_user refl,
        parsed_at texts args m u parse_mode 12 args.label_compute_mode _ _ refl
            (parse_mode-show_mode (unwrap_or m.compute_mode default_mode)),
        unwritten texts args m u args.label_gpu g,
        bool 13 args.label_signed_out _ _ refl (parse_bool-show_bool (unwrap_or m.signed_out true)),
      )
      refl
