-- ===== src/Sha/Sha2/Laws.antt =====
-- What the streaming of generic/sha2.c relies on, of a transform and a counter.
use e2factory.Common.{ℕ, ◌+◌, ◌-◌, ◌*◌, ◌%◌, ◌≤◌, ◌<◌, ◌≡◌, Bytes, length}
use e2factory.Sha.Sha2.{Machine}

pub record IsMachine (m : Machine) : Type 1 where
  -- A count whose words are in range, the bits that it stands for, and how they wrap around.
  pub IsCount : m.Count → Type 0
  pub value : m.Count → ℕ
  pub wrap : ℕ → ℕ
  pub value_wraps : (c : m.Count) → IsCount c → value c ≡ wrap (value c)
  pub wrap_add : (a b : ℕ) → wrap (wrap a + b) ≡ wrap (a + b)
  pub add-IsCount : (c : m.Count) (n : ℕ) → IsCount c → IsCount (m.add c n)
  pub value-add :
      (c : m.Count) (n : ℕ) → IsCount c → n ≤ m.block → value (m.add c n) ≡ wrap (value c + 8 * n)
  pub waits-lt : (c : m.Count) → m.waits c < m.block
  pub waits-add :
      (c : m.Count) (n : ℕ)
      → IsCount c
      → m.waits c + n < m.block
      → m.waits (m.add c n) ≡ m.waits c + n
  pub waits-full :
      (c : m.Count) (n : ℕ) → IsCount c → m.waits c + n ≡ m.block → m.waits (m.add c n) ≡ 0
  pub waits_wrap :
      (c : m.Count) (n : ℕ) → IsCount c → value c ≡ wrap (8 * n) → m.waits c ≡ n % m.block
  -- The count as the standard writes it.
  pub count_text : ℕ → Bytes
  pub count_bytes-text : (c : m.Count) → IsCount c → m.count_bytes c ≡ count_text (value c)
  pub length_transform : (st : m.State) (bytes : Bytes) → length (m.transform st bytes).1 ≡ m.block
  pub length_count : (c : m.Count) → length (m.count_bytes c) ≡ m.block - m.short
  pub short_pos : 0 < m.short
  pub short-lt : m.short < m.block
  pub short-le-cleared : m.short ≤ m.cleared
  pub cleared-le : m.cleared ≤ m.block
