-- ===== src/Lib.antt =====
-- The Knossos IR core of src/python/ksc, and a data structure of its rewrite search: a verification
-- library beside the Python code.
--
-- The program compiles and rewrites programs of a small functional language (ksc). The parts that
-- are modelled here work on one data type of expressions:
-- * types (src/python/ksc/type.py): the class Type as the data type KsType, a constructor for each
--   kind and a field for each child. Types.Defs has the predicates, the accessors and the printers,
--   Types.Size the class SizeType and shape_type, Types.Tangent tangent_type, Types.Accept
--   can_accept_value_of_type, Types.Equality the operator ==.
-- * structured names (src/python/ksc/expr.py, class StructuredName): Names and Names.Laws.
-- * expressions and definitions (src/python/ksc/expr.py): Expr, with compute_free_vars as free_vars.
--   Expr.Meaning is the specification of the passes: the value of an expression in an environment,
--   over any interpretation of constants, calls and binders.
-- * printing (src/python/ksc/expr.py, pystr): Pystr; Python's repr of a constant is a parameter.
-- * substitution (src/python/ksc/cav_subst.py and the transformer of src/python/ksc/visitors.py):
--   Fresh has make_nonfree_var, Subst the visitor and its entry points, Subst.Rename its meaning.
-- * tuple-lets and one-argument definitions (src/python/ksc/untuple_lets.py and
--   src/python/ksc/oneargify_defs.py): Untuple; Untuple.Total and Untuple.Keeps are about
--   untuple_lets, Untuple.Sound about untuple_one_let.
-- * primitives (src/python/ksc/prim.py): Primitives has prim_lookup, Primitives.Get the
--   names of the tuple accessors.
-- * type propagation (src/python/ksc/type_propagate.py): Propagate has the functions, with the
--   symbol table as a record that is passed on; Propagate.Decls has definitions, and Propagate.Calls
--   and Propagate.Again run the functions again on their results.
-- * parser (src/python/ksc/parse_ks.py): Parse has types, names and arguments, Parse.Terms
--   expressions and definitions, Parse.Types is about printed types. The reader of s-expressions is
--   third-party code; the model starts from s-expressions.
-- * paths (src/python/ksc/path.py): Paths and Paths.Serial.
-- * alpha-equivalence and hashing (src/python/ksc/alpha_equiv.py, src/python/ksc/filter_term.py):
--   Alpha and its children.
-- * rewrites (src/python/ksc/rewrites.py): Rewrites has the traversal and RuleSet, Rewrites.Rules the
--   rules that are written in Python, Rewrites.Sequence rewrite_seq_to_exprs. Rewrites.Reach is the specification of
--   the traversal, as steps down an expression; Rewrites.Matches holds the traversal to it.
--   Rewrites.PutPath, Rewrites.Splice, Rewrites.Hole, Rewrites.Below and
--   Rewrites.Insert are about the calls of
--   replace_subtree, Rewrites.Inline is about inline_var, Rewrites.Table and
--   Rewrites.Sets about RuleSet, Rewrites.Builtin and Rewrites.Sound about the rules. Rewrites.Template
--   has the rules that are parsed from text, with Match, Fits and Sound about find_template_subst,
--   Subst about SubstPattern and Matcher for ParsedRuleMatcher.
-- * cumulative maxima and minima (rlo/src/rlo/cum_sequence.py): CumSequence, with the sorted dictionary
--   of the third-party sortedcontainers as an interface; CumSequence.Reference is the dense sequence.
-- Substitution and untupling draw their new names from Fresh and give expressions to Expr.Meaning;
-- paths name the places that substitution works at; type propagation reads the types of primitives
-- from Primitives; the rewrites search the paths
-- of an expression and replace sub-expressions by substitution; alpha-equivalence is held to the same meaning as substitution.
--
-- Conventions. A Python string is a list of code points (Base.Text), a dictionary an association
-- list (Base.Assoc), an exception a value of Base.Result.Error. The identity of Python objects, the
-- hash of a constant and the equality of constants are parameters where the code depends on them.
-- Of the equality nothing is assumed by the definitions: Python's makes 1, 1.0 and True equal and a
-- NaN different from itself, and a theorem that needs more of it says so.
-- A float is its bit pattern. The loop of make_nonfree_var runs on fuel, one round more than there
-- are names to avoid, and a theorem states that it ends within it; all other recursion is on the
-- structure of the data. The type of integers is unbounded, as in Python.
--
-- Not modelled: the rules of src/python/ksc/rewrites_ast.py and rewrites_prelude.py, __repr__ and
-- the prettyprinter, the text of error messages, the conversion of numpy and torch values, the C++
-- generator, the compilers and the frontends, and the Haskell, C++ and MLIR parts of the
-- repository. Regular expressions are modelled as the functions that they compute on the texts at
-- hand.
pub mod Base
pub mod Types
pub mod Names
pub mod Expr
pub mod Fresh
pub mod Paths
pub mod Subst
pub mod Untuple
pub mod Primitives
pub mod Propagate
pub mod Parse
pub mod Alpha
pub mod Rewrites
pub mod CumSequence
pub mod Pystr
pub mod Examples
