-- ===== src/Tests/Disk.antt =====
-- A disk that is a list of files and may be full, under a buffered writer as `BufWriter` is one.
use ember.Prelude.{
  ℕ, ◌+◌, ◌-◌, ◌≡◌, ◌≢◌, refl, sym, ap, ◌∙◌, false, Bool-cases, inl, inr, List, [], ◌++◌, length,
  leb, if◌then◌else◌, Option, none, some, append_assoc, append-nil, Result, ok, err,
}
use ember.Text.{Bytes, codes, str_eq, str_eq_refl}
use ember.Resp.Types.{IoResult, written, io_error, and_then}
use ember.Database.Map.{lookup, put, without, lookup-put, is_some}
use ember.Rdb.File.{FileSystem}
use ember.Rdb.File.Contract.{IsFileSystem}

abbrev pub Files : Type 0
Files = List (Bytes × Bytes)

-- `room` is how many bytes may still be written.
pub record Volume : Type 0 where
  pub files : Files
  pub room : ℕ

abbrev pub empty_volume : Volume
empty_volume = record { files = []; room = 1000 }

-- A file that was created, the bytes that it was given, and those that wait in the buffer.
pub record Open : Type 0 where
  pub target : Bytes
  pub flushed : Bytes
  pub buffer : Bytes

abbrev pub capacity : ℕ
capacity = 16

abbrev pub no_space : Bytes
no_space = codes "No space left on device"

abbrev pub spill : Open × Volume → IoResult × (Open × Volume)
spill (h, d) =
    if leb (length h.buffer) d.room
    then (
      written,
      (
        record { target = h.target; flushed = h.flushed ++ h.buffer; buffer = [] },
        record {
          files = put h.target (h.flushed ++ h.buffer) d.files;
          room = d.room - length h.buffer;
        },
      ),
    )
    else (io_error no_space, (h, d))

abbrev pub keep : Bytes → Open × Volume → Open × Volume
keep s (h, d) = (record h { buffer = h.buffer ++ s }, d)

-- What fits goes into the buffer. Else the buffer is written first, and what is as long as the
-- buffer is written at once.
abbrev pub buffered : Bytes → Open × Volume → IoResult × (Open × Volume)
buffered s w =
    if leb (length w.0.buffer + length s) capacity
    then (written, keep s w)
    else and_then (spill w)
        (λ w₁. if leb capacity (length s) then spill (keep s w₁) else (written, keep s w₁))

abbrev pub move : Option Bytes → Bytes → Bytes → Volume → IoResult × Volume
move none p q d = (io_error (codes "No such file or directory"), d)
move (some s) p q d = (written, record d { files = put q s (without p d.files) })

abbrev pub read_all : Option Bytes → Result Bytes Bytes
read_all none = err (codes "No such file or directory")
read_all (some s) = ok s

abbrev pub volume : FileSystem
volume = record {
  Disk = Volume;
  Handle = Open;
  exists = λ p d. is_some (lookup p d.files);
  open_file = λ p d. read_all (lookup p d.files);
  create = λ p d. (
    inr (record { target = p; flushed = []; buffer = [] }),
    record d { files = put p [] d.files },
  );
  write_all = buffered;
  flush = spill;
  drop = λ w. (spill w).1.1;
  rename = λ p q d. move (lookup p d.files) p q d;
}

abbrev pub accepted : Open → Bytes
accepted h = h.flushed ++ h.buffer

pub lookup-other :
    (p q s : Bytes) (d : Files) → str_eq p q ≡ false → lookup q (put p s d) ≡ lookup q d
lookup-other p q s d h = lookup-put p q s d ∙ rw h refl

lookup-same : (p s : Bytes) (d : Files) → lookup p (put p s d) ≡ some s
lookup-same p s d = lookup-put p p s d ∙ rw (str_eq_refl p) refl

pub move-written :
    (o : Option Bytes) (p q : Bytes) (d : Volume)
    → (move o p q d).0 ≡ written
    → lookup q (move o p q d).1.files ≡ o
move-written none p q d e = absurd cc
move-written (some s) p q d e = lookup-same q s (without p d.files)

pub move-failed :
    (o : Option Bytes) (p q r : Bytes) (d : Volume)
    → (move o p q d).0 ≢ written
    → lookup r (move o p q d).1.files ≡ lookup r d.files
move-failed none p q r d e = refl
move-failed (some s) p q r d e = absurd (e refl)

pub read_all-some : (o : Option Bytes) (s : Bytes) → o ≡ some s → read_all o ≡ ok s
read_all-some none s e = absurd cc
read_all-some (some t) s e = cc

-- The file is there, with the bytes that were flushed to it.
abbrev pub InStep : Open × Volume → Type 0
InStep (h, d) = lookup h.target d.files ≡ some h.flushed

pub opened :
    (p : Bytes) (d : Volume) (h : Open)
    → (volume.create p d).0 ≡ inr h
    → (h.target ≡ p) × (accepted h ≡ []) × InStep (h, (volume.create p d).1)
opened p d h e =
    let same : h ≡ record { target = p; flushed = []; buffer = [] } = cc in
    (ap (λ x. x.target) same, ap (λ x. accepted x) same, rw same (lookup-same p [] d.files))

-- What a call that writes to an open file does: it stays in the file, and if it succeeds the file and
-- the buffer hold `s` more.
pub record Within (s : Bytes) (w : Open × Volume) (r : IoResult × (Open × Volume)) : Type 0 where
  pub at : r.1.0.target ≡ w.0.target
  pub others : (q : Bytes) → str_eq w.0.target q ≡ false → lookup q r.1.1.files ≡ lookup q w.1.files
  pub took : r.0 ≡ written → accepted r.1.0 ≡ accepted w.0 ++ s
  pub in_step : InStep w → InStep r.1

pub spill-Within : (w : Open × Volume) → Within [] w (spill w)
spill-Within (h, d) = elim (Bool-cases (leb (length h.buffer) d.room)) [
  | inl e ↦ rw e (record {
    at = refl;
    others = λ q ne. lookup-other h.target q _ d.files ne;
    took = λ x. refl;
    in_step = λ o. lookup-same h.target (accepted h) d.files;
  })
  | inr e ↦
      rw e (record { at = refl; others = λ q ne. refl; took = λ x. absurd cc; in_step = λ o. o })
]

keep-Within : (s : Bytes) (w : Open × Volume) → Within s w (written, keep s w)
keep-Within s (h, d) = record {
  at = refl;
  others = λ q ne. refl;
  took = λ x. sym (append_assoc h.flushed h.buffer s);
  in_step = λ o. o;
}

Within-then :
    (s t : Bytes) (w w₁ : Open × Volume) (r : IoResult × (Open × Volume))
    → Within s w (written, w₁)
    → Within t w₁ r
    → Within (s ++ t) w r
Within-then s t w w₁ r first second = record {
  at = second.at ∙ first.at;
  others = λ q ne. second.others q (rw first.at ne) ∙ first.others q ne;
  took = λ x. second.took x ∙ ap (λ u. u ++ t) (first.took refl) ∙ append_assoc (accepted w.0) s t;
  in_step = λ o. second.in_step (first.in_step o);
}

Within-and_then :
    (s t : Bytes) (w : Open × Volume) (m : IoResult × (Open × Volume))
    (k : Open × Volume → IoResult × (Open × Volume))
    → Within s w m
    → ((w₁ : Open × Volume) → Within t w₁ (k w₁))
    → Within (s ++ t) w (and_then m k)
Within-and_then s t w (written, w₁) k first h = Within-then s t w w₁ (k w₁) first (h w₁)
Within-and_then s t w (io_error e, w₁) k first h = record {
  at = first.at;
  others = first.others;
  took = λ x. absurd cc;
  in_step = first.in_step;
}

pub buffered-Within : (s : Bytes) (w : Open × Volume) → Within s w (buffered s w)
buffered-Within s w = elim (Bool-cases (leb (length w.0.buffer + length s) capacity)) [
  | inl e ↦ rw e (keep-Within s w)
  | inr e ↦ rw e (
      Within-and_then [] s w (spill w) _ (spill-Within w) λ w₁.
        elim (Bool-cases (leb capacity (length s))) [
          | inl long ↦ rw long (long_write w₁)
          | inr short ↦ rw short (keep-Within s w₁)
        ])
]
  where
    long_write : (w₁ : Open × Volume) → Within s w₁ (spill (keep s w₁))
    long_write w₁ =
        let r =
          Within-then s [] w₁ (keep s w₁) (spill (keep s w₁)) (keep-Within s w₁)
            (spill-Within (keep s w₁)) in
        record {
          at = r.at;
          others = r.others;
          took = λ x. r.took x ∙ ap (λ u. accepted w₁.0 ++ u) (append-nil s);
          in_step = r.in_step;
        }

pub spill-content :
    (w : Open × Volume)
    → (spill w).0 ≡ written
    → lookup w.0.target (spill w).1.1.files ≡ some (accepted w.0)
spill-content (h, d) = elim (Bool-cases (leb (length h.buffer) d.room)) [
  | inl e ↦ rw e (λ x. lookup-same h.target (accepted h) d.files)
  | inr e ↦ rw e (λ x. absurd cc)
]

unfoldable pub volume-IsFileSystem : IsFileSystem volume
volume-IsFileSystem = record {
  content = λ p d. lookup p d.files;
  target = λ h. h.target;
  accepted = accepted;
  is_open = λ w. InStep w;
  exists_content = λ p d. refl;
  open_content = λ p s d e. read_all-some (lookup p d.files) s e;
  create_others = λ p q d h. lookup-other p q [] d.files h;
  create_new = λ p d h e. opened p d h e;
  write_others = λ s q h d o e. (buffered-Within s (h, d)).others q e;
  write_target = λ s w. (buffered-Within s w).at;
  write_open = λ s w o. (buffered-Within s w).in_step o;
  write_accepted = λ s w e. (buffered-Within s w).took e;
  flush_others = λ q h d o e. (spill-Within (h, d)).others q e;
  flush_target = λ w. (spill-Within w).at;
  flush_open = λ w o. (spill-Within w).in_step o;
  flush_content = λ w o e. spill-content w e;
  drop_others = λ q h d o e. (spill-Within (h, d)).others q e;
  rename_written = λ p q d e. move-written (lookup p d.files) p q d e;
  rename_failed = λ p q r d e. move-failed (lookup p d.files) p q r d e;
}
