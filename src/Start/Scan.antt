-- ===== src/Start/Scan.antt =====
-- `FileStore::new` and `orphan_scan` of src/files.rs: what they leave, and that no temp file is left
-- over where nothing fails.
use aardbin.Prelude.{
  Bool, Bytes, List, Option, Text, [], arith, false, if◌then◌else◌, none, one_of, refl, some,
  text_eq, text_eq_sym, true, ◌∙◌, ◌∷◌, ◌≡◌,
}
use aardbin.Prelude.Dict.{Dict, find, find-remove}
use aardbin.Db.{is_some}
use aardbin.App.{head_fault}
use aardbin.Start.Volume.{DbFile, Task, Volume, call, doing, pure, spend, ◌>>=◌, ◌>>◌}
use aardbin.Start.Directories.{
  dir_or_new, listed, make_attachments, make_tmp, names, new, next_entry, orphan_scan, orphans,
  remove_all, remove_stale, without,
}
use aardbin.Start.Ends.{Ends, Ends-continue}
use aardbin.Start.Kept.{Kept, Kept-refl, Kept-spend, Kept-trans, any_fault, head_trouble}
use aardbin.Start.Stages.{At, IsLeft, IsSound, beside-At}

-- The file is there and so are both directories.
pub record Placed (u : Volume) (f : DbFile) (v : Volume) : Type 0 where
  pub at : At u f v
  pub temp_dir : is_some v.tmp ≡ true
  pub file_dir : is_some v.attachments ≡ true

-- Temp files are left over only under the names, unless something fails.
pub record IsCleared (u : Volume) (f : DbFile) (ns : List Text) (v : Volume) : Type 0 where
  pub placed : Placed u f v
  pub gone :
      any_fault u.faults ≡ false
      → (name : Text) → one_of name ns ≡ false
      → find name (dir_or_new v.tmp) ≡ none

names_lem :
    (name : Text) (files : Dict Bytes) → one_of name (names files) ≡ false → find name files ≡ none
unfolding find
names_lem name [] h = refl
names_lem name ((n, content) ∷ files) h =
    ground (arith, names_lem name files, text_eq_sym n name, h)

some_dir : (d : Option (Dict Bytes)) → is_some d ≡ true → d ≡ some (dir_or_new d)
some_dir none h = cc
some_dir (some files) h = refl

same_files : (v : Volume) → Kept v (make_attachments v)
same_files v = record {
  tables = refl;
  stored = refl;
  temps = λ name content h. h;
  troubles = λ h. h;
}

same_temps : (v : Volume) → Kept v (make_tmp v)
same_temps v = record {
  tables = refl;
  stored = refl;
  temps = λ name content h. h;
  troubles = λ h. h;
}

module _ (u : Volume) (f : DbFile) (sound : IsSound f) where
  pub new-Placed : (v : Volume) → At u f v → Ends (λ _. Placed u f) (IsLeft u) (new v)
  unfolding new
  new-Placed v at =
      Ends-continue _ (λ _. call (doing make_tmp))
        (beside-At u {P = λ _ w. At u f w × (is_some w.attachments ≡ true)} (doing make_attachments)
          f v tt (make_attachments (spend v)) at sound refl (same_files (spend v)) refl
          (λ at'. (at', refl)))
        λ _ w (at', there).
          beside-At u (doing make_tmp) f w tt (make_tmp (spend w)) at' sound refl
            (same_temps (spend w)) refl
            (λ at''. record { at = at''; temp_dir = refl; file_dir = there })

  entry :
      {P : Unit {0} → Volume → Type 0} (v : Volume)
      → At u f v
      → (At u f (spend v) → P tt (spend v))
      → Ends P (IsLeft u) (next_entry v)
  entry v at done =
      beside-At u (doing (λ v. v)) f v tt (spend v) at sound refl (Kept-refl _) refl done

  Kept-without : (name : Text) (v : Volume) → Kept v (record (spend v) { tmp = without name v.tmp })
  Kept-without name v = record {
    tables = refl;
    stored = refl;
    temps = left_over v.tmp;
    troubles = (Kept-spend v).troubles;
  }
    where
      left_over :
          (d : Option (Dict Bytes)) (n : Text) (content : Bytes)
          → find n (dir_or_new (without name d)) ≡ some content
          → find n (dir_or_new d) ≡ some content
      left_over none n content h = h
      left_over (some files) n content h = ground (arith, find-remove name n files, h)

  without_lem :
      (name n : Text) (d : Option (Dict Bytes))
      → find n (dir_or_new (without name d))
        ≡ (if text_eq name n then none else find n (dir_or_new d))
  unfolding find
  without_lem name n none = ground arith
  without_lem name n (some files) = find-remove name n files

  without_there : (name : Text) (d : Option (Dict Bytes)) → is_some (without name d) ≡ is_some d
  without_there name none = refl
  without_there name (some files) = refl

  gone_one :
      (name n : Text) (ns : List Text) (d : Option (Dict Bytes))
      → (one_of n (name ∷ ns) ≡ false → find n (dir_or_new d) ≡ none)
      → one_of n ns ≡ false
      → find n (dir_or_new (without name d)) ≡ none
  gone_one name n ns d before h =
      ground (arith, without_lem name n d, text_eq_sym n name, before, h)

  spent :
      (ns : List Text) (v : Volume)
      → IsCleared u f ns v
      → At u f (spend v)
      → IsCleared u f ns (spend v)
  spent ns v c at = record {
    placed = record { at = at; temp_dir = c.placed.temp_dir; file_dir = c.placed.file_dir };
    gone = c.gone;
  }

  stale_removed :
      (name : Text) (ns : List Text) (v : Volume)
      → IsCleared u f (name ∷ ns) v
      → Ends (λ _. IsCleared u f ns) (IsLeft u) (remove_stale name v)
  unfolding remove_stale
  stale_removed name ns v c = record { how = by_fault (head_fault v.faults) refl }
    where
      by_fault :
          (b : Bool)
          → head_fault v.faults ≡ b
          → IsCleared u f ns (if b then spend v else record (spend v) { tmp = without name v.tmp })
      by_fault true bad = record {
        placed = record {
          at = record {
            kept = Kept-trans c.placed.at.kept (Kept-spend v);
            found = c.placed.at.found;
          };
          temp_dir = c.placed.temp_dir;
          file_dir = c.placed.file_dir;
        };
        gone = λ fine n h. cc (fine, c.placed.at.kept.troubles (head_trouble v bad));
      }
      by_fault false good = record {
        placed = record {
          at = record {
            kept = Kept-trans c.placed.at.kept (Kept-without name v);
            found = c.placed.at.found;
          };
          temp_dir = without_there name v.tmp ∙ c.placed.temp_dir;
          file_dir = c.placed.file_dir;
        };
        gone = λ fine n h. gone_one name n ns v.tmp (c.gone fine n) h;
      }

  remove_all-IsCleared :
      (ns : List Text) (v : Volume)
      → IsCleared u f ns v
      → Ends (λ _. IsCleared u f []) (IsLeft u) (remove_all ns v)
  unfolding remove_all
  remove_all-IsCleared [] v c = entry v c.placed.at (λ at. spent [] v c at)
  remove_all-IsCleared (name ∷ ns) v c =
      Ends-continue _ (λ _. remove_stale name >> remove_all ns)
        (entry v c.placed.at (λ at. spent (name ∷ ns) v c at))
        λ _ w c1.
          Ends-continue _ (λ _. remove_all ns) (stale_removed name ns w c1)
            λ _ x c2. remove_all-IsCleared ns x c2

  orphans-IsCleared :
      (known files : List Text) (v : Volume)
      → IsCleared u f [] v
      → Ends (λ _. IsCleared u f []) (IsLeft u) (orphans known files v)
  unfolding orphans
  orphans-IsCleared known [] v c =
      Ends-continue _ (λ _. pure []) (entry v c.placed.at (spent [] v c))
        λ _ w c'. record { how = c' }
  orphans-IsCleared known (name ∷ files) v c =
      Ends-continue _ (λ _. orphans known files >>= with_name) (entry v c.placed.at (spent [] v c))
        λ _ w c'.
          Ends-continue _ with_name (orphans-IsCleared known files w c')
            λ _ x c''. record { how = c'' }
    where
      with_name : List Text → Task (List Text)
      with_name found = pure (if one_of name known then found else name ∷ found)

  lists :
      (d : Option (Dict Bytes)) (v : Volume)
      → is_some d ≡ true
      → listed d v ≡ some (names (dir_or_new d), v)
  lists none v h = cc
  lists (some files) v h = refl

  cleared : (v : Volume) → Placed u f v → IsCleared u f (names (dir_or_new v.tmp)) v
  cleared v placed = record {
    placed = placed;
    gone = λ fine name. names_lem name (dir_or_new v.tmp);
  }

  pub orphan_scan-IsCleared :
      (known : List Text) (v : Volume)
      → Placed u f v
      → Ends (λ _. IsCleared u f []) (IsLeft u) (orphan_scan known v)
  unfolding orphan_scan
  orphan_scan-IsCleared known v placed =
      Ends-continue _ (λ stale. remove_all stale >> then_list)
        (beside-At u (λ v. listed v.tmp v) f v (names (dir_or_new v.tmp)) (spend v) placed.at sound
          (lists v.tmp (spend v) placed.temp_dir) (Kept-refl _) refl
          (λ at. spent _ v (cleared v placed) at))
        λ stale w c.
          Ends-continue _ (λ _. then_list) (remove_all-IsCleared stale w c)
            λ _ x c'.
              Ends-continue _ (orphans known)
                (beside-At u {P = λ _. IsCleared u f []} (λ v. listed v.attachments v) f x
                  (names (dir_or_new x.attachments)) (spend x) c'.placed.at sound
                  (lists x.attachments (spend x) c'.placed.file_dir) (Kept-refl _) refl
                  (spent [] x c'))
                λ files y c''. orphans-IsCleared known files y c''
    where
      then_list : Task (List Text)
      then_list = call (λ v. listed v.attachments v) >>= orphans known
