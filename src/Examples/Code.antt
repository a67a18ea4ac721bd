-- ===== src/Examples/Code.antt =====
-- Everything that a run on the toy image computes with, under one name.
use nextufs_offline.Memory.{
  upd, shift, copy, clear, read_be16, read_be32, read_be64, write_be16, write_be32, write_be64,
}
use nextufs_offline.Bitmap.{
  test_bit, set_bit, clear_bit, set_run_bits, clear_block_bits, run_length, count_run,
  count_runs_from, count_free_runs_in_block,
}
use nextufs_offline.Superblock.{decode_superblock}
use nextufs_offline.Io.{
  call_read, read_with, read_exact, call_write, write_with, write_exact, call_fsync, fsync_with,
  image_fsync, image_pread, image_pwrite, malloc_or_fail, now,
}
use nextufs_offline.Inode.{
  decode_inode, write_words, encode_ids, encode_times, encode_tail, encode_inode,
}
use nextufs_offline.Layout.{
  cgstart, frag_offset, cg_block_offset, inode_offset, dirent_size, read_dirent, bump_be32,
  bump_counts, update_superblock, update_csum, update_summary_counts, write_inode_raw, inode_read,
}
use nextufs_offline.Cg.{
  add_be32, sub_be32, apply_frsum_from, apply_cg_frsum_delta, cylno_of, rotpos_of, adjust_totals,
  adjust_rotation, load_cg,
}
use nextufs_offline.Alloc.InodeGroup.{
  find_inode, inode_rotor, mark_inode_used, mark_inode_free, found_inode, allocate_inode_in_group,
  free_inode_in_group,
}
use nextufs_offline.Alloc.Fragments.{
  find_start, start_in_block, first_hit, find_partial, find_block, take_partial, count_rest,
  take_block, limit_ok, commit_partial, commit_block, after_block_search, split_block,
  after_partial_search, allocate_from, allocate_frags_in_group, unless_full, allocate_frags_from,
  allocate_frags_anycg, allocate_full_block_anycg,
}
use nextufs_offline.Alloc.Runs.{
  take_tail, release_bits, count_release, give_back, extend_fragment_run, released,
  free_fragment_run, reallocate_fragment_run,
}
use nextufs_offline.Alloc.Indirect.{
  span_of, set_db, set_ib, read_indirect_entry, write_indirect_entry, resolve_indirect_data_block,
  resolve_slots, resolve_inode_data_block, allocate_zeroed_full_block, enter_block, next_block,
  set_indirect_data_block, enter_root, root_block, set_slots, set_inode_data_block, free_children,
  free_indirect_metadata_tree,
}
use nextufs_offline.Alloc.Storage.{
  chunk_of, frags_of, is_fast_link, free_data_blocks, free_slots, free_blocks, free_file_storage,
  allocate_one_block, allocate_blocks, allocate_data_for_inode,
}
use nextufs_offline.File.{
  resolve_indirect_block_frag, resolve_file_slots, resolve_file_block_frag, read_chunk, read_blocks,
  inode_read_data,
}
use nextufs_offline.Dirent.{same_bytes, write_dirent_raw}
use nextufs_offline.Directory.{
  visit, go_on, at_record, visit_block, visit_blocks, directory_iterate, find_name_cb,
  found_or_zero, find_name_in_directory, dir_node_cb, directory_iterate_nodes,
}
use nextufs_offline.Mutate.{
  update_node_times, extend_or_move, grow_last_block, grow_new_block, grow_directory_by_dirblk,
}
use nextufs_offline.Mutate.Insert.{
  insert_at, insert_in_block, commit_insert, insert_in_new_block, insert_in_blocks, insert_dirent,
}
use nextufs_offline.Mutate.Remove.{
  is_dot, unlink_record, remove_in_dirblk, remove_in_block, commit_remove, remove_in_blocks,
  remove_dirent,
}
use nextufs_offline.Mutate.Parent.{
  new_directory_block, see, see_block, write_new_directory_block, see_blocks, false_on_error,
  directory_is_empty, read_directory_parent_inode, update_directory_parent_inode,
}
use nextufs_offline.Fd.{read_fd_from, read_exact_fd, write_fd_from, write_exact_fd}
use nextufs_offline.Vdi.{
  read_parent, read_mapped, vdi_read_from, vdi_read, vdi_write_le32, inherited, write_mapped,
  write_extra, allocate_block, materialize_block, vdi_write_from, vdi_write,
}
use nextufs_offline.Label.{
  read_be24, write_be24, add_word, checksum_from, checksum_be16, summed, put_string, strcmp_zero,
  cstr_len, copy_cstr_field, all_bytes,
}
use nextufs_offline.Label.Decode.{
  partition_used, decode_partition, stored_checksum, checksum_holds, label_fields, label_decode,
  pick_by_type, pick_slice,
}
use nextufs_offline.Label.Build.{
  fill_ff, label_head, put_disktab, put_partitions, put_checksum, label_bytes, write_label_copy,
  write_copies, label_write_path,
}
use nextufs_offline.Label.Patch.{
  label_partition_present, count_present, patched_label, check_label, validate_one_label_copy,
  patch_label, patch_one_label_partition_size, scan_from, label_validate_single_slice,
  label_patch_slice_size,
}
use nextufs_offline.Path.{
  skip_slashes, strsep, append_path_component, link_path, string_at, go_deeper, inode_readlink,
  enter_link, walk, lookup_path,
}
use nextufs_offline.File.Symlink.{inline_bytes, decode_inline_symlink}
use nextufs_offline.Access.{in_groups, perms_of, bits_of, check_access, fs_statvfs}
use nextufs_offline.Operations.{
  ctx_in_group, sticky_ok, chmod_allowed, chown_allowed, set_new_inode_owner, sanitize_mode,
  sanitize_new_inode_mode, sanitize_chmod_mode, is_dot_name, grant, require_user_access, with_ctx,
  with_image, run_on, if_found, refuse_found,
}
use nextufs_offline.Operations.Inodes.{
  give_up_inode, remove_linked_inode, remove_dir_inode, rewrite_inode_contents, discard_new_inode,
  node_get_by_inode, or_false, directory_has_ancestor,
}
use nextufs_offline.Operations.Create.{
  new_inode, free_place, enter_name, publish_inode, path_create_file, path_symlink, first_block,
  path_mkdir,
}
use nextufs_offline.Operations.Remove.{leave_name, unlink_at, rmdir_at, path_unlink, path_rmdir}
use nextufs_offline.Operations.Rename.{
  same_path, rename_nodes, replace_existing, change_parent, move_entry, rename_onto, rename_at,
  path_rename,
}
use nextufs_offline.Operations.Attributes.{
  chmod_inode, chown_inode, change_node, path_chmod, path_chown,
}
use nextufs_offline.Path.Split.{or_here, last_slash, split_at, path_split}
use nextufs_offline.Path.Split.Laws.{slash_free}
use nextufs_offline.Operations.Create.{new_directory}
use nextufs_offline.Resize.{
  count_free_bits, recount, add_to_block, or_einval, add_from, add_free_frag_range,
}
use nextufs_offline.Size.{suffix_factor, factor_of, scaled, scale_parsed, parse_size_bytes}
use nextufs_offline.Operations.Contents.{
  read_old, writable_file, rewrite_target, on_contents, path_pwrite,
}
use nextufs_offline.Operations.Create.{link_place, new_name_at}
use nextufs_offline.Operations.Create.{path_mknod}

unfoldable pub code : Unit {0}
unfolding upd shift copy clear read_be16 read_be32 read_be64 write_be16 write_be32 write_be64
    test_bit set_bit clear_bit set_run_bits clear_block_bits run_length count_run count_runs_from
    count_free_runs_in_block decode_superblock call_read read_with read_exact call_write write_with
    write_exact call_fsync fsync_with image_fsync image_pread image_pwrite malloc_or_fail now
    decode_inode write_words encode_ids encode_times encode_tail encode_inode cgstart frag_offset
    cg_block_offset inode_offset dirent_size read_dirent bump_be32 bump_counts update_superblock
    update_csum update_summary_counts write_inode_raw inode_read add_be32 sub_be32 apply_frsum_from
    apply_cg_frsum_delta cylno_of rotpos_of adjust_totals adjust_rotation load_cg find_inode
    inode_rotor mark_inode_used mark_inode_free found_inode allocate_inode_in_group
    free_inode_in_group find_start start_in_block first_hit find_partial find_block take_partial
    count_rest take_block limit_ok commit_partial commit_block after_block_search split_block
    after_partial_search allocate_from allocate_frags_in_group unless_full allocate_frags_from
    allocate_frags_anycg allocate_full_block_anycg take_tail release_bits count_release give_back
    extend_fragment_run released free_fragment_run reallocate_fragment_run span_of set_db set_ib
    read_indirect_entry write_indirect_entry resolve_indirect_data_block resolve_slots
    resolve_inode_data_block allocate_zeroed_full_block enter_block next_block
    set_indirect_data_block enter_root root_block set_slots set_inode_data_block free_children
    free_indirect_metadata_tree chunk_of frags_of is_fast_link free_data_blocks free_slots
    free_blocks free_file_storage allocate_one_block allocate_blocks allocate_data_for_inode
    resolve_indirect_block_frag resolve_file_slots resolve_file_block_frag read_chunk read_blocks
    inode_read_data same_bytes write_dirent_raw visit go_on at_record visit_block visit_blocks
    directory_iterate find_name_cb found_or_zero find_name_in_directory dir_node_cb
    directory_iterate_nodes update_node_times extend_or_move grow_last_block grow_new_block
    grow_directory_by_dirblk insert_at insert_in_block commit_insert insert_in_new_block
    insert_in_blocks insert_dirent is_dot unlink_record remove_in_dirblk remove_in_block
    commit_remove remove_in_blocks remove_dirent new_directory_block see see_block
    write_new_directory_block see_blocks false_on_error directory_is_empty
    read_directory_parent_inode update_directory_parent_inode read_fd_from read_exact_fd
    write_fd_from write_exact_fd read_parent read_mapped vdi_read_from vdi_read vdi_write_le32
    inherited write_mapped write_extra allocate_block materialize_block vdi_write_from vdi_write
    read_be24 write_be24 add_word checksum_from checksum_be16 summed put_string strcmp_zero cstr_len
    copy_cstr_field all_bytes partition_used decode_partition stored_checksum checksum_holds
    label_fields label_decode pick_by_type pick_slice fill_ff label_head put_disktab put_partitions
    put_checksum label_bytes write_label_copy write_copies label_write_path label_partition_present
    count_present patched_label check_label validate_one_label_copy patch_label
    patch_one_label_partition_size scan_from label_validate_single_slice label_patch_slice_size
    skip_slashes strsep append_path_component link_path string_at go_deeper inode_readlink
    enter_link walk lookup_path inline_bytes decode_inline_symlink in_groups perms_of bits_of
    check_access fs_statvfs ctx_in_group sticky_ok chmod_allowed chown_allowed set_new_inode_owner
    sanitize_mode sanitize_new_inode_mode sanitize_chmod_mode is_dot_name grant require_user_access
    with_ctx with_image run_on if_found refuse_found give_up_inode remove_linked_inode
    remove_dir_inode rewrite_inode_contents discard_new_inode node_get_by_inode or_false
    directory_has_ancestor new_inode free_place enter_name publish_inode path_create_file
    path_symlink first_block path_mkdir leave_name unlink_at rmdir_at path_unlink path_rmdir
    same_path rename_nodes replace_existing change_parent move_entry rename_onto rename_at
    path_rename chmod_inode chown_inode change_node path_chmod path_chown or_here last_slash
    split_at path_split slash_free new_directory count_free_bits recount add_to_block or_einval
    add_from add_free_frag_range suffix_factor factor_of scaled scale_parsed parse_size_bytes
    read_old writable_file rewrite_target on_contents path_pwrite link_place new_name_at path_mknod
code = tt
