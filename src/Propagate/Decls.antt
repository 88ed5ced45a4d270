-- ===== src/Propagate/Decls.antt =====
-- src/python/ksc/type_propagate.py: types for the definitions of a program, one after another.
use knossos_ksc.Base.{Bool, false, Option, none, some, List, [], ◌∷◌}
use knossos_ksc.Base.Result.{Result, ok, ks_type_error, ◌>>=◌, ◌>>◌, require, map_ok}
use knossos_ksc.Base.Assoc.{text_key, lookup}
use knossos_ksc.Types.Defs.{KsType, make_tuple_if_many}
use knossos_ksc.Names.{StructuredName, derived}
use knossos_ksc.Names.Laws.{sname_key}
use knossos_ksc.Expr.{
  Var, type_of, Def, EDef, GDef, Rule, Decl, def_decl, edef_decl, gdef_decl, rule_decl,
}
use knossos_ksc.Propagate.{
  Symtab, same_type, bind_fun, bind_args, add_type_to_sname, type_propagate,
}

-- A name may be in the table with the same type only.
unfoldable pub no_clash : StructuredName → Option KsType → Symtab → Result (Unit {0})
no_clash f t st = elim (lookup f st.fun_types) [
  | none ↦ ok tt
  | some old ↦ require (same_type old t) ks_type_error
]

abbrev var_list_types : List Var → List (Option KsType)
var_list_types [] = []
var_list_types (x ∷ xs) = x.type_ ∷ var_list_types xs

-- A declared return type is in the table for the body; an inferred one comes after it.
unfoldable pub propagate_def : Def → Symtab → Bool → Result (Def × Symtab)
unfolding no_clash
propagate_def d st keep = make_tuple_if_many (var_list_types d.args) >>= λ argtype.
    add_type_to_sname d.name argtype >>= λ f. no_clash f d.return_type st >> elim d.return_type [
      | some r ↦
          let st' = bind_fun f (some r) st in
          type_propagate d.body (bind_args d.args st') keep >>= λ e.
          require (same_type (some r) (type_of e)) ks_type_error
          >> ok (record d { name = f; body = e }, st')
      | none ↦ type_propagate d.body (bind_args d.args st) keep >>= λ e.
          ok (record d { name = f; body = e; return_type = type_of e }, bind_fun f (type_of e) st)
    ]

unfoldable pub propagate_edef : EDef → Symtab → Result (EDef × Symtab)
propagate_edef d st = add_type_to_sname d.name (some d.arg_type) >>= λ f.
    no_clash f (some d.return_type) st
    >> ok (record d { name = f }, bind_fun f (some d.return_type) st)

-- A generated function has no return type in the table.
unfoldable pub propagate_gdef : GDef → Symtab → Result (GDef × Symtab)
propagate_gdef d st =
    let signature = derived d.derivation d.function_name in
    no_clash signature none st >> ok (d, bind_fun signature none st)

unfoldable pub propagate_rule : Rule → Symtab → Bool → Result (Rule × Symtab)
propagate_rule d st keep =
    let st' = bind_args d.template_vars st in
    type_propagate d.template st' keep >>= λ t. type_propagate d.replacement st' keep >>= λ r.
    ok (record d { template = t; replacement = r }, st)

unfoldable pub propagate_decl : Decl → Symtab → Result (Decl × Symtab)
unfolding propagate_def propagate_edef propagate_gdef propagate_rule
propagate_decl (def_decl d) st = map_ok (λ (d', st'). (def_decl d', st')) (propagate_def d st false)
propagate_decl (edef_decl d) st = map_ok (λ (d', st'). (edef_decl d', st')) (propagate_edef d st)
propagate_decl (gdef_decl d) st = map_ok (λ (d', st'). (gdef_decl d', st')) (propagate_gdef d st)
propagate_decl (rule_decl d) st =
    map_ok (λ (d', st'). (rule_decl d', st')) (propagate_rule d st false)

unfoldable pub type_propagate_decls : List Decl → Symtab → Result (List Decl × Symtab)
unfolding propagate_decl
type_propagate_decls [] st = ok ([], st)
type_propagate_decls (d ∷ ds) st = propagate_decl d st >>= λ (d', st').
    type_propagate_decls ds st' >>= λ (ds', st''). ok (d' ∷ ds', st'')
