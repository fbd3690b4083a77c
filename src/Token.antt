-- ===== src/Token.antt =====
-- `TokenType` of lexer.h: a character below 256 is its own type, and the named types follow.
use Prim.Native.Nat.{ℕ}

abbrev pub tk_identifier : ℕ
tk_identifier = 256

abbrev pub tk_file_reference : ℕ
tk_file_reference = 257

abbrev pub tk_string : ℕ
tk_string = 258

abbrev pub tk_number : ℕ
tk_number = 259

abbrev pub tk_integer : ℕ
tk_integer = 260

abbrev pub tk_comment : ℕ
tk_comment = 261

abbrev pub tk_whitespace : ℕ
tk_whitespace = 262

abbrev pub tk_lshift : ℕ
tk_lshift = 263

abbrev pub tk_rshift : ℕ
tk_rshift = 264

abbrev pub tk_logical_and : ℕ
tk_logical_and = 265

abbrev pub tk_logical_or : ℕ
tk_logical_or = 266

abbrev pub tk_rshift_assign : ℕ
tk_rshift_assign = 267

abbrev pub tk_lshift_assign : ℕ
tk_lshift_assign = 268

abbrev pub tk_gequal : ℕ
tk_gequal = 269

abbrev pub tk_lequal : ℕ
tk_lequal = 270

abbrev pub tk_and_assign : ℕ
tk_and_assign = 271

abbrev pub tk_or_assign : ℕ
tk_or_assign = 272

abbrev pub tk_increment : ℕ
tk_increment = 273

abbrev pub tk_decrement : ℕ
tk_decrement = 274

abbrev pub tk_scope_resolution : ℕ
tk_scope_resolution = 275

abbrev pub tk_div_assign : ℕ
tk_div_assign = 276

abbrev tk_ellipsis : ℕ
tk_ellipsis = 277

abbrev pub tk_plus_assign : ℕ
tk_plus_assign = 278

abbrev pub tk_minus_assign : ℕ
tk_minus_assign = 279

abbrev pub tk_xor_assign : ℕ
tk_xor_assign = 280

abbrev pub tk_mod_assign : ℕ
tk_mod_assign = 281

abbrev pub tk_mul_assign : ℕ
tk_mul_assign = 282

abbrev pub tk_equal : ℕ
tk_equal = 283

abbrev pub tk_nequal : ℕ
tk_nequal = 284

abbrev pub tk_for : ℕ
tk_for = 285

abbrev pub tk_while : ℕ
tk_while = 286

abbrev pub tk_if : ℕ
tk_if = 287

abbrev pub tk_else : ℕ
tk_else = 288

abbrev pub tk_do : ℕ
tk_do = 289

abbrev pub tk_continue : ℕ
tk_continue = 290

abbrev pub tk_break : ℕ
tk_break = 291

abbrev pub tk_return : ℕ
tk_return = 292

abbrev pub tk_switch : ℕ
tk_switch = 293

abbrev pub tk_default : ℕ
tk_default = 294

abbrev pub tk_case : ℕ
tk_case = 295

abbrev pub tk_true : ℕ
tk_true = 296

abbrev pub tk_false : ℕ
tk_false = 297

abbrev pub tk_undefined : ℕ
tk_undefined = 298

abbrev pub tk_null : ℕ
tk_null = 299

abbrev pub tk_in : ℕ
tk_in = 300

abbrev pub tk_foreach : ℕ
tk_foreach = 301

abbrev pub tk_thread : ℕ
tk_thread = 302

abbrev pub tk_wait : ℕ
tk_wait = 303

abbrev pub tk_self : ℕ
tk_self = 304

abbrev pub tk_waittillframeend : ℕ
tk_waittillframeend = 305

abbrev tk_max : ℕ
tk_max = 306
