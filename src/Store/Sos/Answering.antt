-- ===== src/Store/Sos/Answering.antt =====
-- store/sos.py: what `read`, `is_dir` and `remove` make of the files of `Spec`.
use data_py_os.Base.{
  ◌≡◌, refl, sym, ap, ◌∙◌, inl, inr, false, Option, none, some, [], Bool-cases, Option-cases,
}
use data_py_os.Base.Eq.{text_eq, Text, chars}
use data_py_os.Base.Result.{ok}
use data_py_os.Base.Dict.{lookup}
use data_py_os.Store.Sos.Types.{Bytes, Host, SObject, Sos, oid_of}
use data_py_os.Store.Sos.Objects.{get}
use data_py_os.Store.Sos.Aliases.{resolve, unalias}
use data_py_os.Store.Sos.Files.{object_at, get_at, of_kind, is_dir, read}
use data_py_os.Store.Sos.Listing.{remove, remove_all}
use data_py_os.Store.Sos.Coherent.{
  Coherent, Reads, Answers, target, is_dir_object, resolve-Reads, get-Reads,
}
use data_py_os.Store.Sos.Writing.{EmptyAlone, object_at-Reads}
use data_py_os.Store.Sos.RoundTrip.{object_at_lem, read_found}
use data_py_os.Store.Sos.Spec.{View, Matches}
use data_py_os.Store.Sos.Showing.{Held, Bare, Shows}

module _ ⦃h : Host⦄ where
  pub remove_lem :
      (path : Text) (s : Sos)
      → (is_dir path s).0 ≡ false
      → remove 1 path false s ≡ (ok tt, unalias path (is_dir path s).1)
  unfolding remove remove_all
  remove_lem path s file = rw file refl

  read_state : (path : Text) (s : Sos) → (read path s).1 ≡ (object_at path s).1
  unfolding read
  read_state path s = elim (Option-cases (object_at path s).0) [
    | inl e ↦ rw e refl
    | inr (obj, e) ↦ elim (Bool-cases (is_dir_object obj)) [
      | inl dir ↦ rw (e, dir) refl
      | inr file ↦ rw (e, file) refl
    ]
  ]

  pub read-Reads : (path : Text) (s : Sos) → Coherent s → Reads s (read path s).1
  read-Reads path s k = rw (read_state path s) (object_at-Reads path s k)

  no_file_answer :
      (path : Text) (s : Sos) (o : Option SObject)
      → (object_at path s).0 ≡ o
      → ((obj : SObject) → o ≡ some obj → obj.content ≡ [])
      → Matches none (read path s).0
  unfolding read
  no_file_answer path s none e empty = rw e (inl refl)
  no_file_answer path s (some obj) e empty = elim (Bool-cases (is_dir_object obj)) [
    | inl dir ↦ rw (e, dir) (inr (inl refl))
    | inr file ↦ rw (e, file) (inr (inr (ap (λ b. ok (h.decode b)) (empty obj refl))))
  ]

  missing : (path : Text) (s : Sos) → (resolve path s).0 ≡ none → (object_at path s).0 ≡ none
  unfolding object_at get_at
  missing path s e = rw (e, get_at) refl

  present :
      (path oid : Text) (s : Sos)
      → (resolve path s).0 ≡ some oid
      → (object_at path s).0 ≡ (get oid (resolve path s).1).0
  unfolding object_at get_at
  present path oid s e = rw (e, get_at) refl

  module _ (alone : EmptyAlone) where
    answered :
        (row o : Option SObject) (obj : SObject)
        → Answers (oid_of []) row o
        → o ≡ some obj
        → obj.content ≡ []
    answered row none obj a e = absurd (cc e)
    answered row (some x) obj a e =
        let same : x ≡ obj = cc e in
        alone obj.content (ap (λ (y : SObject). oid_of y.content) (sym same) ∙ a.0.hashed)

    no_file_read :
        (path : Text) (s : Sos) → Coherent s → Bare (target path s) → Matches none (read path s).0
    no_file_read path s k (inl gone) =
        let (answer, r) = resolve-Reads path s k in
        no_file_answer path s none (missing path s (answer ∙ gone)) (λ obj e. absurd (cc e))
    no_file_read path s k (inr dir) =
        let (answer, r) = resolve-Reads path s k in
        let s' = (resolve path s).1 in
        no_file_answer path s (get (oid_of []) s').0 (present path (oid_of []) s (answer ∙ dir))
          (λ obj e.
            answered (lookup (oid_of []) s'.objects) (get (oid_of []) s').0 obj
              (get-Reads (oid_of []) s' r.coherent).0 e)

    pub Held-is_file :
        (path : Text) (content : Bytes) (s : Sos)
        → Coherent s
        → Held path content s
        → (is_dir path s).0 ≡ false
    unfolding is_dir
    Held-is_file path content s k held =
        let (obj, is, fits, same) =
          object_at_lem path s (oid_of content) held.row k held.at held.found in
        ap (of_kind (chars "dir")) is ∙ fits.file (λ e. held.full (alone content e))

    -- A file of the view reads as its bytes, and what is no file as none.
    pub Shows-Matches :
        (Known : Bytes → Type 0) (fs : View) (s : Sos)
        → Shows Known fs s
        → (path : Text) (o : Option Bytes) → fs path ≡ o
        → Matches o (read path s).0
    Shows-Matches Known fs s v path none e = no_file_read path s v.coherent (v.bare path e)
    Shows-Matches Known fs s v path (some content) e =
        let held = v.held path content e in
        read_found path s (oid_of content) held.row v.coherent held.at held.found
          (λ same. held.full (alone content same))
        ∙ ap (λ b. ok (h.decode b)) held.same
