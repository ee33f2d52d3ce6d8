-- ===== src/Sources/Authorization.antt =====
-- When a guest's log may be deleted: `current_coverage` of proxmox_fleet/housekeeping_sources.py.
use proxmox_management.Prelude.{
  Text, Bool, true, false, not, ◌&&◌, ◌||◌, Option, none, some, ◌≡◌, refl, ap, sym, ◌∙◌, ◌==◌,
  arith, if◌then◌else◌, codes, text_eq, ==_iff,
}
use proxmox_management.Sources.Provenance.{parse}
use proxmox_management.Sources.Coverage.{
  Wire, SourceRecord, CurrentCoverage, ArchiveNames, current_coverage, coverage_with,
  prefix_complete_for_current, is_prefix_complete, identity_compatible, current_log_name,
  has_digest, same_inode,
}

and_left : (a b : Bool) → (a && b) ≡ true → a ≡ true
and_left a b h = ground arith

and_right : (a b : Bool) → (a && b) ≡ true → b ≡ true
and_right a b h = ground arith

or_left : (a b : Bool) → (a || b) ≡ false → a ≡ false
or_left a b h = ground arith

or_right : (a b : Bool) → (a || b) ≡ false → b ≡ false
or_right a b h = ground arith

none_is_not_some : {A : Type 0} (a : A) → none ≡ some a → ⊥
none_is_not_some a h = ground arith

value_or : {A : Type 0} → A → Option A → A
value_or a none = a
value_or a (some b) = b

coverage_guards :
    {A : Type 0} (acknowledged kept live whole : Bool) (x y : A)
    → (if not acknowledged
        then none
        else if kept
        then none
        else if live
        then none
        else if not whole
        then none
        else some x)
      ≡ some y
    → (acknowledged ≡ true) × (kept ≡ false) × (live ≡ false) × (whole ≡ true) × (x ≡ y)
unfolding value_or
coverage_guards false kept live whole x y h = elim (none_is_not_some y h) [ ]
coverage_guards true true live whole x y h = elim (none_is_not_some y h) [ ]
coverage_guards true false true whole x y h = elim (none_is_not_some y h) [ ]
coverage_guards true false false false x y h = elim (none_is_not_some y h) [ ]
coverage_guards true false false true x y h = (refl, refl, refl, refl, ap (value_or x) h)

prefix_guards :
    (compatible complete inode whole : Bool)
    → (if not compatible || not complete then false else if not inode then false else whole) ≡ true
    → (compatible ≡ true) × (complete ≡ true) × (inode ≡ true) × (whole ≡ true)
prefix_guards compatible complete inode whole h =
    (ground arith, ground arith, ground arith, ground arith)

module _ (names : ArchiveNames) where
  -- the archive has all of the file that the probe saw, and nobody writes to it any more
  pub record IsArchived (r : SourceRecord) (w : Wire) : Type 0 where
    pub acknowledged : r.acknowledged ≡ true
    pub no_index : text_eq r.log_kind (codes "task_index") ≡ false
    pub inactive : r.is_active ≡ false
    pub rotated : current_log_name names r.profile r.log_kind r.path ≡ false
    pub same_source : identity_compatible names r w ≡ true
    pub complete : (parse r.provenance).complete ≡ true
    pub whole : (parse r.provenance).complete_size ≡ w.size
    pub device : r.device ≡ w.device
    pub inode : r.inode ≡ w.inode

  pub record IsAuthorized (r : SourceRecord) (w : Wire) (c : CurrentCoverage) : Type 0 where
    pub archived : IsArchived r w
    pub same_digest : r.digest ≡ some c.sha256
    pub same_wire : c.wire ≡ w

  prefix_parts :
      (r : SourceRecord) (w : Wire)
      → prefix_complete_for_current names r w ≡ true
      → (identity_compatible names r w ≡ true)
        × ((parse r.provenance).complete ≡ true)
        × ((parse r.provenance).complete_size ≡ w.size)
        × (r.device ≡ w.device)
        × (r.inode ≡ w.inode)
  unfolding prefix_complete_for_current is_prefix_complete
  prefix_parts r w h =
      let (compatible, complete, inode, whole) =
        prefix_guards (identity_compatible names r w)
          (has_digest names r.digest && (parse r.provenance).complete) (same_inode names r w)
          ((parse r.provenance).complete_size == w.size) h in
      (
        compatible,
        and_right (has_digest names r.digest) (parse r.provenance).complete complete,
        (==_iff (parse r.provenance).complete_size w.size).0 whole,
        (==_iff r.device w.device).0 (and_left (r.device == w.device) (r.inode == w.inode) inode),
        (==_iff r.inode w.inode).0 (and_right (r.device == w.device) (r.inode == w.inode) inode),
      )

  coverage_with-IsAuthorized :
      (r : SourceRecord) (w : Wire) (o : Option Text) (c : CurrentCoverage)
      → r.digest ≡ o
      → coverage_with names r w o ≡ some c
      → IsAuthorized r w c
  unfolding coverage_with
  coverage_with-IsAuthorized r w none c e h = elim (none_is_not_some c h) [ ]
  coverage_with-IsAuthorized r w (some d) c e h =
      let index = text_eq r.log_kind (codes "task_index") in
      let (acked, kind, rotated, whole, same_coverage) =
        coverage_guards r.acknowledged (index || r.is_active)
          (current_log_name names r.profile r.log_kind r.path)
          (prefix_complete_for_current names r w)
          (record { wire = w; source_id = r.source_id; sha256 = d; provenance_path = r.path }) c
          h in
      let (same, complete, size, device, inode) = prefix_parts r w whole in
      record {
        archived = record {
          acknowledged = acked;
          no_index = or_left index r.is_active kind;
          inactive = or_right index r.is_active kind;
          rotated = rotated;
          same_source = same;
          complete = complete;
          whole = size;
          device = device;
          inode = inode;
        };
        same_digest = e ∙ ap (λ (x : CurrentCoverage). some x.sha256) same_coverage;
        same_wire = sym (ap (λ (x : CurrentCoverage). x.wire) same_coverage);
      }

  -- A deletion is authorized only for the probed file itself: the source is acknowledged with the
  -- digest that the authorization carries, neither active nor a task index nor a live name, of a
  -- compatible identity, at the probed device and inode, and its complete prefix is as long as
  -- the probed file.
  pub current_coverage-IsAuthorized :
      (r : SourceRecord) (w : Wire) (c : CurrentCoverage)
      → current_coverage names r w ≡ some c
      → IsAuthorized r w c
  unfolding current_coverage
  current_coverage-IsAuthorized r w c h = coverage_with-IsAuthorized r w r.digest c refl h
